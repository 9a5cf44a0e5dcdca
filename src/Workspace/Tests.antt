-- ===== src/Workspace/Tests.antt =====
-- A workspace of 4096 bytes beside the tensor of six planes.
use iom.Base.{
  ◌==◌, if◌then◌else◌, Bool-cases, max_word, ok, ℕ, ◌≤◌, ◌≡◌, refl, inl, inr, none, some, [], ◌∷◌,
  arith,
}
use iom.Operand.{Tensor}
use iom.Operand.Tests.{part, tensors}
use iom.Workspace.{RawWorkspace, RawWorkspaceView, Workspaces, Device, subrange, validated}
use iom.Workspace.Disjoint.{Usable, validated-Usable}

abbrev workspace : RawWorkspace
workspace = record { device = 3; bytes = 4096; address = 65536 }

abbrev workspaces : Workspaces
workspaces identity = if identity == 5 then some workspace else none

abbrev device : Device
device = record { identity = 3; live_workspaces = 8 ∷ 5 ∷ [] }

abbrev full : RawWorkspaceView
full = record { owner = 5; offset = 0; bytes = 4096 }

abbrev tail : RawWorkspaceView
tail = record { owner = 5; offset = 1024; bytes = 512 }

validated_run : validated tensors workspaces device tail 512 256 (part ∷ []) ≡ ok tail
unfolding validated iom.Workspace.new_workspace_view iom.Workspace.range_address iom.Workspace.find
    iom.Workspace.owns_workspace iom.Workspace.check_operands iom.Workspace.check_overlaps
    iom.Workspace.check_range iom.Tensor.Checked.checked_add iom.Tensor.Checked.checked_mul
    iom.Tensor.Checked.bits_to_bytes iom.Tensor.Shape.count_elements iom.Tensor.Shape.element_count
    iom.Tensor.Shape.leaf_bits iom.Tensor.Shape.tiled_storage_nbytes iom.Tensor.Shape.validate
    iom.Tensor.Shape.pad_dimension iom.Tensor.Shape.standard_padded_shape iom.Tensor.Shape.new_shape
    iom.Tensor.Shape.all_nonzero
validated_run = refl

handles : (i : ℕ) (t : Tensor) → tensors i ≡ some t → t.storage_handle ≤ max_word
handles i t e = elim (Bool-cases (i == 7)) [ inl here ↦ ground arith | inr there ↦ ground arith ]

validated-Usable_example : (tail ≡ tail) × Usable tensors workspaces device tail 512 256 (part ∷ [])
validated-Usable_example =
    validated-Usable tensors workspaces device tail tail 512 256 (part ∷ []) handles (omega arith)
      validated_run
