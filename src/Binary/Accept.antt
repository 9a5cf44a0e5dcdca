-- ===== src/Binary/Accept.antt =====
-- An accepted binary request: what it has passed, and where it reads and writes.
use iom.Base.{
  ◌==◌, ==→eq, length, drop, replicate, length-append, length-replicate, All, invalid_argument, ok,
  require, >>=-eq-ok, require-eq-ok, ok-injective, ℕ, zero, suc, ◌-◌, ◌≤◌, ◌<◌, ◌≡◌, refl, sym, ap,
  subst, ◌∙◌, inl, true, ◌&&◌, List, [], ◌∷◌, ◌++◌, arith,
}
use mathlib.Core.Path.{ap₂}
use iom.Tensor.Shape.{rank}
use iom.Tensor.Layout.Numbers.{Within}
use iom.Tensor.View.{TensorView}
use iom.Operand.{Tensors, CheckedViewFacts, validate_checked_spec, validate_checked_view}
use iom.Operand.Sound.{validate_checked_spec-IsShape}
use iom.Tensor.Layout.Planes.{leading}
use iom.Tensor.Layout.Slots.{rows, columns}
use iom.Tensor.Shape.{new_shape}
use iom.Base.{unsupported_operation}
use iom.Operand.Sound.{both}
use iom.Binary.{
  BinaryOperation, BinaryRequest, same_dimensions, broadcast_axes, axes, greater_of,
  validate_binary, same_kind, alias_allowed, supported, BinaryViewSnapshot, snapshot_binary_view,
}
use iom.Binary.Broadcast.{Stretches, Stretches-drop, broadcast_axes-Stretches}
use iom.Binary.Reads.{Registered, Reads, snapshot-Reads}

same_dimensions-eq : (xs ys : List ℕ) → same_dimensions xs ys ≡ true → xs ≡ ys
unfolding same_dimensions
same_dimensions-eq [] [] e = refl
same_dimensions-eq [] (y ∷ ys) e = cc
same_dimensions-eq (x ∷ xs) [] e = cc
same_dimensions-eq (x ∷ xs) (y ∷ ys) e =
    let (here, rest) = both (x == y) (same_dimensions xs ys) e in
    ap₂ (λ (z : ℕ) (zs : List ℕ). z ∷ zs) (==→eq x y here) (same_dimensions-eq xs ys rest)

-- What an accepted request has passed.
record Accepted (tensors : Tensors) (device : ℕ) (operation : BinaryOperation)
    (lhs rhs out : TensorView) (request : BinaryRequest) : Type 0 where
  result : List ℕ
  facts_lhs : CheckedViewFacts
  facts_rhs : CheckedViewFacts
  facts_out : CheckedViewFacts
  spec_lhs : validate_checked_spec lhs.spec ≡ ok tt
  spec_rhs : validate_checked_spec rhs.spec ≡ ok tt
  spec_out : validate_checked_spec out.spec ≡ ok tt
  view_lhs : validate_checked_view tensors device lhs ≡ ok facts_lhs
  view_rhs : validate_checked_view tensors device rhs ≡ ok facts_rhs
  view_out : validate_checked_view tensors device out ≡ ok facts_out
  broadcast :
      broadcast_axes
        (axes (greater_of (rank lhs.spec.shape) (rank rhs.spec.shape)) lhs.spec.shape.dimensions)
        (axes (greater_of (rank lhs.spec.shape) (rank rhs.spec.shape)) rhs.spec.shape.dimensions)
      ≡ ok result
  whole : out.spec.shape.dimensions ≡ result
  snapshot_lhs : request.lhs ≡ snapshot_binary_view tensors lhs result
  snapshot_rhs : request.rhs ≡ snapshot_binary_view tensors rhs result
  snapshot_out : request.out ≡ snapshot_binary_view tensors out result

validate_binary-Accepted :
    (tensors : Tensors) (device : ℕ) (operation : BinaryOperation) (lhs rhs out : TensorView)
    {request : BinaryRequest}
    → validate_binary tensors device operation lhs rhs out ≡ ok request
    → Accepted tensors device operation lhs rhs out request
unfolding validate_binary
validate_binary-Accepted tensors device operation lhs rhs out {request} e =
    let (u0, spec_lhs, e0) = >>=-eq-ok (validate_checked_spec lhs.spec) _ e in
    let (u1, spec_rhs, e1) = >>=-eq-ok (validate_checked_spec rhs.spec) _ e0 in
    let (u2, spec_out, e2) = >>=-eq-ok (validate_checked_spec out.spec) _ e1 in
    let (u3, alike, e3) =
      >>=-eq-ok
        (require (same_kind lhs.spec rhs.spec && same_kind lhs.spec out.spec) invalid_argument) _
        e2 in
    let (facts_lhs, view_lhs, e4) = >>=-eq-ok (validate_checked_view tensors device lhs) _ e3 in
    let (facts_rhs, view_rhs, e5) = >>=-eq-ok (validate_checked_view tensors device rhs) _ e4 in
    let (facts_out, view_out, e6) = >>=-eq-ok (validate_checked_view tensors device out) _ e5 in
    let all = greater_of (rank lhs.spec.shape) (rank rhs.spec.shape) in
    let (result, broadcast, e7) =
      >>=-eq-ok
        (broadcast_axes (axes all lhs.spec.shape.dimensions) (axes all rhs.spec.shape.dimensions)) _
        e6 in
    let (u4, whole, e8) =
      >>=-eq-ok (require (same_dimensions out.spec.shape.dimensions result) invalid_argument) _
        e7 in
    let (shape, made, e9) = >>=-eq-ok (new_shape result) _ e8 in
    let l = snapshot_binary_view tensors lhs result in
    let r = snapshot_binary_view tensors rhs result in
    let o = snapshot_binary_view tensors out result in
    let (u5, apart, e10) =
      >>=-eq-ok (require (alias_allowed l o && alias_allowed r o) invalid_argument) _ e9 in
    let (u6, able, e11) =
      >>=-eq-ok (require (supported operation lhs.spec) unsupported_operation) _ e10 in
    let same = ok-injective _ request e11 in
    record {
      result = result;
      facts_lhs = facts_lhs;
      facts_rhs = facts_rhs;
      facts_out = facts_out;
      spec_lhs = spec_lhs;
      spec_rhs = spec_rhs;
      spec_out = spec_out;
      view_lhs = view_lhs;
      view_rhs = view_rhs;
      view_out = view_out;
      broadcast = broadcast;
      whole =
          same_dimensions-eq out.spec.shape.dimensions result
            (require-eq-ok _ invalid_argument whole);
      snapshot_lhs = sym (ap (λ (q : BinaryRequest). q.lhs) same);
      snapshot_rhs = sym (ap (λ (q : BinaryRequest). q.rhs) same);
      snapshot_out = sym (ap (λ (q : BinaryRequest). q.out) same);
    }

-- An input has one of the extents that are broadcast.
length-axes : (all : ℕ) (dims : List ℕ) → length dims ≤ all → length (axes all dims) ≡ all
length-axes all dims h = omega (
  arith,
  length-append (replicate (all - length dims) 1) dims,
  length-replicate {A = ℕ} (all - length dims) 1,
  h,
)

axes-positive :
    (k : ℕ) (dims : List ℕ) → All (λ d. 0 < d) dims → All (λ d. 0 < d) (replicate k 1 ++ dims)
axes-positive zero dims h = h
axes-positive (suc k) dims h = (omega arith, axes-positive k dims h)

same-Stretches : (dims : List ℕ) → Stretches dims dims
same-Stretches [] = tt
same-Stretches (d ∷ dims) = (inl refl, same-Stretches dims)

-- The result has the greater rank, and both inputs are stretched to it.
record Stretched (lhs rhs result : List ℕ) : Type 0 where
  shorter_lhs : length lhs ≤ length result
  shorter_rhs : length rhs ≤ length result
  stretch_lhs : Stretches lhs (drop (length result - length lhs) result)
  stretch_rhs : Stretches rhs (drop (length result - length rhs) result)

broadcast-Stretched :
    (lhs rhs : List ℕ) {result : List ℕ}
    → All (λ d. 0 < d) lhs
    → All (λ d. 0 < d) rhs
    → broadcast_axes
        (axes (greater_of (length lhs) (length rhs)) lhs)
        (axes (greater_of (length lhs) (length rhs)) rhs)
      ≡ ok result
    → Stretched lhs rhs result
broadcast-Stretched lhs rhs {result} hl hr e =
    let all = greater_of (length lhs) (length rhs) in
    let (low_l, low_r) = greatest (length lhs) (length rhs) in
    let long_l = length-axes all lhs low_l in
    let long_r = length-axes all rhs low_r in
    let (long, left, right) =
      broadcast_axes-Stretches (axes all lhs) (axes all rhs) (long_l ∙ sym long_r)
        (axes-positive (all - length lhs) lhs hl) (axes-positive (all - length rhs) rhs hr) e in
    let whole : all ≡ length result = sym (long ∙ long_l) in
    record {
      shorter_lhs = omega (arith, whole, low_l);
      shorter_rhs = omega (arith, whole, low_r);
      stretch_lhs =
          subst (λ (n : ℕ). Stretches lhs (drop (n - length lhs) result)) whole
            (Stretches-drop (all - length lhs) lhs result left);
      stretch_rhs =
          subst (λ (n : ℕ). Stretches rhs (drop (n - length rhs) result)) whole
            (Stretches-drop (all - length rhs) rhs result right);
    }
  where
    greatest : (a b : ℕ) → (a ≤ greater_of a b) × (b ≤ greater_of a b)
    greatest a b = (ground arith, ground arith)

-- For three views of registered tensors, whose owners have valid shapes and whose dimensions and
-- plane offsets are words: where `validate_binary` accepts a request, the extents of each of the
-- three views are those of the output or 1, from the last axis on; for leading coordinates, a
-- row and a column within the output, the snapshot of the view gives the element of the view at
-- the coordinates that the view has, with 0 along each of its axes of extent 1, rows and columns
-- included; and that element has a standard slot that ends within the storage bytes which the
-- check of the view reports.
pub validate_binary-Reads :
    (tensors : Tensors) (device : ℕ) (operation : BinaryOperation) (lhs rhs out : TensorView)
    (cs : List ℕ) (row column : ℕ) {request : BinaryRequest}
    → Registered tensors lhs
    → Registered tensors rhs
    → Registered tensors out
    → validate_binary tensors device operation lhs rhs out ≡ ok request
    → Within cs (leading out.spec)
    → row < rows out.spec
    → column < columns out.spec
    → Reads tensors device lhs out.spec.shape.dimensions request.lhs cs row column
      × Reads tensors device rhs out.spec.shape.dimensions request.rhs cs row column
      × Reads tensors device out out.spec.shape.dimensions request.out cs row column
validate_binary-Reads tensors device operation lhs rhs out cs row column {request} gl gr go e within
      hr hc =
    let a = validate_binary-Accepted tensors device operation lhs rhs out e in
    let result = out.spec.shape.dimensions in
    let shape_l = validate_checked_spec-IsShape lhs.spec a.spec_lhs in
    let shape_r = validate_checked_spec-IsShape rhs.spec a.spec_rhs in
    let shape_o = validate_checked_spec-IsShape out.spec a.spec_out in
    let s =
      broadcast-Stretched lhs.spec.shape.dimensions rhs.spec.shape.dimensions shape_l.nonzero
        shape_r.nonzero (a.broadcast ∙ ap ok (sym a.whole)) in
    (
      subst (λ (x : BinaryViewSnapshot). Reads tensors device lhs result x cs row column)
          (ap (snapshot_binary_view tensors lhs) a.whole ∙ sym a.snapshot_lhs)
          (snapshot-Reads tensors device lhs result cs row column gl a.spec_lhs a.view_lhs
            s.shorter_lhs shape_o.at_most s.stretch_lhs within hr hc),
      subst (λ (x : BinaryViewSnapshot). Reads tensors device rhs result x cs row column)
          (ap (snapshot_binary_view tensors rhs) a.whole ∙ sym a.snapshot_rhs)
          (snapshot-Reads tensors device rhs result cs row column gr a.spec_rhs a.view_rhs
            s.shorter_rhs shape_o.at_most s.stretch_rhs within hr hc),
      subst (λ (x : BinaryViewSnapshot). Reads tensors device out result x cs row column)
          (ap (snapshot_binary_view tensors out) a.whole ∙ sym a.snapshot_out)
          (snapshot-Reads tensors device out result cs row column go a.spec_out a.view_out
            (omega arith) shape_o.at_most (itself result) within hr hc),
    )
  where
    none_dropped : (n : ℕ) → 0 ≡ n - n
    none_dropped n = omega arith

    itself : (xs : List ℕ) → Stretches xs (drop (length xs - length xs) xs)
    itself xs =
        subst (λ (n : ℕ). Stretches xs (drop n xs)) (none_dropped (length xs)) (same-Stretches xs)
