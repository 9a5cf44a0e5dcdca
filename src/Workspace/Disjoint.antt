-- ===== src/Workspace/Disjoint.antt =====
-- A workspace view that is accepted for operands: it does not meet the storage of any.
use iom.Base.{
  ltb, leb, ◌==◌, ◌!=◌, ==→eq, Option-cases, All, max_word, add_word, Exception, invalid_argument,
  overflow_error, ok, throws, require, >>=-eq-ok, require-eq-ok, ok-injective, ℕ, ◌+◌, ◌-◌, ◌%◌,
  ◌≤◌, ◌<◌, ◌≡◌, sym, subst, ◌⊎◌, inl, inr, true, false, not, ◌&&◌, some, List, [], ◌∷◌, arith,
  dec_lt,
}
use iom.Tensor.Shape.{tiled_storage_nbytes}
use iom.Tensor.View.{TensorView}
use iom.Operand.{Tensor, Tensors}
use iom.Workspace.{
  RawWorkspace, RawWorkspaceView, Workspaces, Device, range_address, owns_workspace, check_operands,
  check_overlaps, check_range, validated,
}
use iom.Operand.Sound.{both}

-- Two ranges of bytes that do not meet; either may be empty.
abbrev pub Apart : ℕ → ℕ → ℕ → ℕ → Type 0
Apart a m b n = (a + m ≤ b) ⊎ (b + n ≤ a)

-- The storage of an operand ends within the address space, and does not meet the range.
pub record Clear (tensors : Tensors) (device base size : ℕ) (operand : TensorView) : Type 0 where
  pub tensor : Tensor
  pub storage : ℕ
  pub registered : tensors operand.owner ≡ some tensor
  pub same_device : tensor.device ≡ device
  pub stored : tiled_storage_nbytes tensor.full_view.spec ≡ ok storage
  pub ends : tensor.storage_handle + storage ≤ max_word
  pub apart : Apart base size tensor.storage_handle storage

refused : {A : Type 0} (a : A) {x : Exception} → ok a ≡ throws x → ⊥
refused a e = cc

ends_within : (h n : ℕ) → h ≤ max_word → leb n (max_word - h) ≡ true → h + n ≤ max_word
ends_within h n w e = ground arith

Apart-not :
    (base size h n : ℕ)
    → base + size ≤ max_word
    → h + n ≤ max_word
    → not (ltb base (add_word h n) && ltb h (base + size)) ≡ true
    → Apart base size h n
Apart-not base size h n w k e = elim (dec_lt base (h + n)) [
  | no above ↦ inr (omega arith)
  | yes below ↦ elim (dec_lt h (base + size)) [
    | no above ↦ inl (omega arith)
    | yes meets ↦ absurd (meet-no below meets)
  ]
]
  where
    meet-no : base < h + n → h < base + size → ⊥
    meet-no below meets = ground arith

module _ (tensors : Tensors) (device base size : ℕ) (w : base + size ≤ max_word)
    (words : (i : ℕ) (t : Tensor) → tensors i ≡ some t → t.storage_handle ≤ max_word) where
  check_operands-Clear :
      (operands : List TensorView)
      → check_operands tensors device operands ≡ ok tt
      → check_overlaps tensors base (base + size) operands ≡ ok tt
      → All (Clear tensors device base size) operands
  unfolding check_operands check_overlaps
  check_operands-Clear [] e f = tt
  check_operands-Clear (operand ∷ operands) e f = elim (Option-cases (tensors operand.owner)) [
    | inl missing ↦ absurd (refused tt (sym (rw (missing, check_operands) at e)))
    | inr (t, found) ↦
        let e0 = rw (found, check_operands) at e in
        let f0 = rw (found, check_overlaps) at f in
        let (u0, same, e1) =
          >>=-eq-ok (require (t.device == device && t.storage_handle != 0) invalid_argument) _ e0 in
        let (n, stored, f1) = >>=-eq-ok (tiled_storage_nbytes t.full_view.spec) _ f0 in
        let (u1, ends, f2) =
          >>=-eq-ok (require (leb n (max_word - t.storage_handle)) overflow_error) _ f1 in
        let (u2, apart, f3) =
          >>=-eq-ok
            (require
              (not (ltb base (add_word t.storage_handle n) && ltb t.storage_handle (base + size)))
              invalid_argument)
            _ f2 in
        let word = words operand.owner t found in
        let inside =
          ends_within t.storage_handle n word
            (require-eq-ok (leb n (max_word - t.storage_handle)) overflow_error ends) in
        (
          record {
            tensor = t;
            storage = n;
            registered = found;
            same_device =
                ==→eq t.device device
                  (both (t.device == device) (t.storage_handle != 0) (
                    require-eq-ok (t.device == device && t.storage_handle != 0) invalid_argument
                      same)).0;
            stored = stored;
            ends = inside;
            apart = Apart-not base size t.storage_handle n w inside (
                require-eq-ok
                  (not
                    (ltb base (add_word t.storage_handle n) && ltb t.storage_handle (base + size)))
                  invalid_argument apart);
          },
          check_operands-Clear operands e1 f3,
        )
  ]

-- What `validated` has found of a view that it accepts for a positive capacity.
pub record Usable (tensors : Tensors) (workspaces : Workspaces) (d : Device) (v : RawWorkspaceView)
    (capacity alignment : ℕ) (operands : List TensorView) : Type 0 where
  pub live : owns_workspace d v.owner ≡ true
  pub large : capacity ≤ v.bytes
  pub begins : 0 < range_address workspaces v
  pub aligned : range_address workspaces v % alignment ≡ 0
  pub ends : range_address workspaces v + v.bytes ≤ max_word
  pub clear : All (Clear tensors d.identity (range_address workspaces v) v.bytes) operands

range_address-word :
    (workspaces : Workspaces) (v : RawWorkspaceView) → range_address workspaces v ≤ max_word
unfolding range_address
range_address-word workspaces v = elim (Option-cases (workspaces v.owner)) [
  | inl missing ↦ rw (missing, range_address) (omega arith)
  | inr (w, found) ↦ rw (found, range_address) (omega arith)
]

check_range-Usable :
    (tensors : Tensors) (workspaces : Workspaces) (d : Device) (v : RawWorkspaceView)
    (w : RawWorkspace) (capacity alignment : ℕ) (operands : List TensorView)
    → ((i : ℕ) (t : Tensor) → tensors i ≡ some t → t.storage_handle ≤ max_word)
    → owns_workspace d v.owner ≡ true
    → check_range tensors workspaces d v w capacity alignment operands ≡ ok tt
    → Usable tensors workspaces d v capacity alignment operands
unfolding check_range
check_range-Usable tensors workspaces d v w capacity alignment operands words live e =
    let base = range_address workspaces v in
    let (u0, device, e0) = >>=-eq-ok (require (w.device == d.identity) invalid_argument) _ e in
    let (u1, large, e1) = >>=-eq-ok (require (leb capacity v.bytes) invalid_argument) _ e0 in
    let (u2, begins, e2) = >>=-eq-ok (require (base != 0) invalid_argument) _ e1 in
    let (u3, aligned, e3) = >>=-eq-ok (require (base % alignment == 0) invalid_argument) _ e2 in
    let (u4, ends, e4) = >>=-eq-ok (require (leb v.bytes (max_word - base)) overflow_error) _ e3 in
    let (u5, checked, e5) = >>=-eq-ok (check_operands tensors d.identity operands) _ e4 in
    let inside : base + v.bytes ≤ max_word =
      ends_within base v.bytes (range_address-word workspaces v)
        (require-eq-ok (leb v.bytes (max_word - base)) overflow_error ends) in
    let exact : add_word base v.bytes ≡ base + v.bytes = no_wrap base v.bytes inside in
    record {
      live = live;
      large = leb→le capacity v.bytes (require-eq-ok (leb capacity v.bytes) invalid_argument large);
      begins = nonzero base (require-eq-ok (base != 0) invalid_argument begins);
      aligned =
          ==→eq (base % alignment) 0
            (require-eq-ok (base % alignment == 0) invalid_argument aligned);
      ends = inside;
      clear =
          check_operands-Clear tensors d.identity base v.bytes inside words operands checked
            (subst (λ (n : ℕ). check_overlaps tensors base n operands ≡ ok tt) exact e5);
    }
  where
    no_wrap : (a b : ℕ) → a + b ≤ max_word → add_word a b ≡ a + b
    no_wrap a b h = omega arith

    leb→le : (a b : ℕ) → leb a b ≡ true → a ≤ b
    leb→le a b h = ground arith

    nonzero : (a : ℕ) → (a != 0) ≡ true → 0 < a
    nonzero a h = ground arith

-- Where the storage handles of tensors are words and `validated` accepts a workspace view for a
-- positive capacity, it yields that view, whose owner is live on the device; the view has the
-- capacity, begins at a nonzero multiple of the alignment and ends within the address space, and
-- every operand is a tensor of the device whose storage ends within the address space and does
-- not meet the view.
pub validated-Usable :
    (tensors : Tensors) (workspaces : Workspaces) (d : Device) (v r : RawWorkspaceView)
    (capacity alignment : ℕ) (operands : List TensorView)
    → ((i : ℕ) (t : Tensor) → tensors i ≡ some t → t.storage_handle ≤ max_word)
    → 0 < capacity
    → validated tensors workspaces d v capacity alignment operands ≡ ok r
    → (r ≡ v) × Usable tensors workspaces d v capacity alignment operands
unfolding validated check_range
validated-Usable tensors workspaces d v r capacity alignment operands words pos e =
    let (u0, nonzero, e0) = >>=-eq-ok (require (alignment != 0) invalid_argument) _ e in
    let some_capacity : (capacity == 0) ≡ false = ground arith in
    let e1 = rw some_capacity at e0 in
    let (u1, live, e2) =
      >>=-eq-ok (require (v.owner != 0 && owns_workspace d v.owner) invalid_argument) _ e1 in
    elim (Option-cases (workspaces v.owner)) [
      | inl missing ↦ absurd (refused r (sym (rw missing at e2)))
      | inr (w, found) ↦
          let e3 = rw found at e2 in
          let (u2, ranged, e4) =
            >>=-eq-ok (check_range tensors workspaces d v w capacity alignment operands) _ e3 in
          let (some_owner, owned) =
            both (v.owner != 0) (owns_workspace d v.owner)
              (require-eq-ok (v.owner != 0 && owns_workspace d v.owner) invalid_argument live) in
          (
            sym (ok-injective v r e4),
            check_range-Usable tensors workspaces d v w capacity alignment operands words owned
                ranged,
          )
    ]
