-- ===== src/Workspace.antt =====
-- src/workspace.cpp, and `WorkspaceValidation` of src/device_ops.cpp: views of raw workspaces and
-- the check of a view before an operation uses it. A workspace is found under its identity in
-- `workspaces`; 0 is no workspace.
pub mod Ranges
pub mod Disjoint
pub mod Tests
use iom.Base.{
  ltb, leb, ◌==◌, ◌!=◌, if◌then◌else◌, ltb→lt, lt→ltb, ltb→le, le→ltb, ==→eq, eq→==, Bool-cases,
  Option-cases, length, get_elem?, get_or, set, take, drop, replicate, length-append, length-set,
  length-replicate, get_or-set_self, get_or-set_ne, sum, product, All, word_mod, max_word, add_word,
  sub_word, mul_word, Exception, invalid_argument, overflow_error, out_of_range, bad_alloc,
  runtime_error, logic_error, Result, ok, throws, ◌>>=◌, ◌>>◌, require, >>=-eq-ok, require-eq-ok,
  ok-injective, ℕ, zero, suc, ◌+◌, ◌-◌, ◌*◌, ◌/◌, ◌%◌, ◌^◌, ◌≤◌, ◌<◌, bit_and, ◌≡◌, refl, sym, ap,
  subst, ◌∙◌, ◌≢◌, ◌↔◌, ◌⊎◌, inl, inr, Bool, true, false, not, ◌&&◌, ◌||◌, Option, none, some, List,
  [], ◌∷◌, ◌++◌, map, arith, dec_lt, ℕ_discrete,
}
use iom.Tensor.Shape.{tiled_storage_nbytes}
use iom.Tensor.View.{TensorView}
use iom.Operand.{Tensors, device_of, native_handle}

pub record RawWorkspace : Type 0 where
  pub device : ℕ
  pub bytes : ℕ
  pub address : ℕ

pub record RawWorkspaceView : Type 0 where
  pub owner : ℕ
  pub offset : ℕ
  pub bytes : ℕ

-- The workspaces under their identities.
abbrev pub Workspaces : Type 0
Workspaces = ℕ → Option RawWorkspace

-- A device, with the identities of its live workspaces.
pub record Device : Type 0 where
  pub identity : ℕ
  pub live_workspaces : List ℕ

-- The constructor of a view of a workspace.
unfoldable pub new_workspace_view : ℕ → RawWorkspace → ℕ → ℕ → Result RawWorkspaceView
new_workspace_view identity w offset bytes = do
  require (leb offset w.bytes) out_of_range
  require (leb bytes (w.bytes - offset)) out_of_range
  ok (record { owner = identity; offset = offset; bytes = bytes })

-- The full view of a workspace.
unfoldable pub view : ℕ → RawWorkspace → Result RawWorkspaceView
view identity w = new_workspace_view identity w 0 w.bytes

unfoldable pub subrange : Workspaces → RawWorkspaceView → ℕ → ℕ → Result RawWorkspaceView
subrange workspaces v offset bytes = elim (workspaces v.owner) [
  | none ↦ throws invalid_argument
  | some w ↦
      require (offset % 32 == 0) invalid_argument >>= λ _. new_workspace_view v.owner w offset bytes
]

unfoldable pub range_address : Workspaces → RawWorkspaceView → ℕ
range_address workspaces v = elim (workspaces v.owner) [
  | none ↦ add_word 0 v.offset
  | some w ↦ add_word w.address v.offset
]

-- Whether an identity is among some.
unfoldable pub find : List ℕ → ℕ → Bool
find [] identity = false
find (x ∷ xs) identity = x == identity || find xs identity

unfoldable pub owns_workspace : Device → ℕ → Bool
owns_workspace d identity = if identity == 0 then false else find d.live_workspaces identity

-- The set holds an identity once.
unfoldable pub register_workspace : Device → ℕ → Device
register_workspace d identity =
    if find d.live_workspaces identity
    then d
    else record d { live_workspaces = identity ∷ d.live_workspaces }

unfoldable pub erase : List ℕ → ℕ → List ℕ
erase [] identity = []
erase (x ∷ xs) identity = if x == identity then xs else x ∷ erase xs identity

unfoldable pub unregister_workspace : Device → ℕ → Device
unregister_workspace d identity = record d { live_workspaces = erase d.live_workspaces identity }

-- The first loop over the operands.
unfoldable pub check_operands : Tensors → ℕ → List TensorView → Result (Unit {0})
check_operands tensors device [] = ok tt
check_operands tensors device (operand ∷ operands) = elim (tensors operand.owner) [
  | none ↦ throws invalid_argument
  | some t ↦ require (t.device == device && t.storage_handle != 0) invalid_argument >>= λ _.
      check_operands tensors device operands
]

-- The second loop over the operands: the storage of none of them meets the range.
unfoldable pub check_overlaps : Tensors → ℕ → ℕ → List TensorView → Result (Unit {0})
check_overlaps tensors base range_end [] = ok tt
check_overlaps tensors base range_end (operand ∷ operands) = elim (tensors operand.owner) [
  | none ↦ throws invalid_argument
  | some t ↦ tiled_storage_nbytes t.full_view.spec >>= λ operand_bytes.
      require (leb operand_bytes (max_word - t.storage_handle)) overflow_error >>= λ _.
      require
        (not (ltb base (add_word t.storage_handle operand_bytes) && ltb t.storage_handle range_end))
        invalid_argument
      >>= λ _. check_overlaps tensors base range_end operands
]

-- The checks of a view that an operation needs. The owner is read once it is known to be live.
unfoldable pub check_range :
    Tensors
    → Workspaces
    → Device
    → RawWorkspaceView
    → RawWorkspace
    → ℕ
    → ℕ
    → List TensorView
    → Result (Unit {0})
check_range tensors workspaces d v w required_capacity required_alignment operands = do
  require (w.device == d.identity) invalid_argument
  require (leb required_capacity v.bytes) invalid_argument
  let base = range_address workspaces v
  require (base != 0) invalid_argument
  require (base % required_alignment == 0) invalid_argument
  require (leb v.bytes (max_word - base)) overflow_error
  check_operands tensors d.identity operands
  check_overlaps tensors base (add_word base v.bytes) operands

unfoldable pub validated :
    Tensors
    → Workspaces
    → Device
    → RawWorkspaceView
    → ℕ
    → ℕ
    → List TensorView
    → Result RawWorkspaceView
validated tensors workspaces d v required_capacity required_alignment operands =
    require (required_alignment != 0) invalid_argument >>= λ _.
    if required_capacity == 0
    then ok v
    else (require (v.owner != 0 && owns_workspace d v.owner) invalid_argument >>= λ _.
        elim (workspaces v.owner) [
          | none ↦ throws invalid_argument
          | some w ↦
              check_range tensors workspaces d v w required_capacity required_alignment operands
              >>= λ _. ok v
        ])
