-- ===== src/Workspace/Ranges.antt =====
-- Subranges of a workspace.
use iom.Base.{
  leb, ◌==◌, ==→eq, eq→==, invalid_argument, out_of_range, ok, require, >>=-eq-ok, require-eq-ok,
  ok-injective, ℕ, ◌+◌, ◌-◌, ◌%◌, ◌≤◌, ◌≡◌, refl, sym, ◌↔◌, true, some, arith,
}
use iom.Workspace.{RawWorkspace, RawWorkspaceView, Workspaces, new_workspace_view, subrange}

-- For a view of a live workspace, `subrange` yields a view exactly if that has the same owner
-- and the given offset and size, the offset is a multiple of 32 and the range ends within the
-- workspace.
pub subrange_iff :
    (workspaces : Workspaces) (v : RawWorkspaceView) (w : RawWorkspace) (offset bytes : ℕ)
    (r : RawWorkspaceView)
    → workspaces v.owner ≡ some w
    → (subrange workspaces v offset bytes ≡ ok r) ↔ (
        (r ≡ record { owner = v.owner; offset = offset; bytes = bytes })
        × (offset % 32 ≡ 0)
        × (offset + bytes ≤ w.bytes))
unfolding subrange new_workspace_view
subrange_iff workspaces v w offset bytes r found = (there, back)
  where
    range : RawWorkspaceView
    range = record { owner = v.owner; offset = offset; bytes = bytes }

    there :
        subrange workspaces v offset bytes ≡ ok r
        → (r ≡ range) × (offset % 32 ≡ 0) × (offset + bytes ≤ w.bytes)
    there e =
        let e0 = rw (found, subrange) at e in
        let (u0, aligned, e1) = >>=-eq-ok (require (offset % 32 == 0) invalid_argument) _ e0 in
        let (u1, begins, e2) = >>=-eq-ok (require (leb offset w.bytes) out_of_range) _ e1 in
        let (u2, ends, e3) = >>=-eq-ok (require (leb bytes (w.bytes - offset)) out_of_range) _ e2 in
        let multiple = require-eq-ok (offset % 32 == 0) invalid_argument aligned in
        let low = require-eq-ok (leb offset w.bytes) out_of_range begins in
        let high = require-eq-ok (leb bytes (w.bytes - offset)) out_of_range ends in
        (sym (ok-injective _ r e3), ==→eq (offset % 32) 0 multiple, ground arith)

    back :
        (r ≡ range) × (offset % 32 ≡ 0) × (offset + bytes ≤ w.bytes)
        → subrange workspaces v offset bytes ≡ ok r
    back (same, aligned, fits) =
        let multiple : (offset % 32 == 0) ≡ true = eq→== (offset % 32) 0 aligned in
        let low : leb offset w.bytes ≡ true = ground arith in
        let high : leb bytes (w.bytes - offset) ≡ true = ground arith in
        rw (found, subrange, multiple, low, high, same) refl
