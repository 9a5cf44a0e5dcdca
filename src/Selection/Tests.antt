-- ===== src/Selection/Tests.antt =====
-- Greedy selection among the BF16 logits 1.0, 2.0, -3.0, 2.0, and with an infinity.
use iom.Base.{runtime_error, ok, throws, ℕ, ◌≡◌, refl, List, [], ◌∷◌, arith}
use iom.Tensor.Checked.{checked_mul}
use iom.Tensor.Shape.{TensorSpec, bf16, none_format}
use iom.Selection.{
  load_bf16, decode_bf16, greater, nonfinite, scan_from, scan_logits, validate_host_scratch,
  validate_logits_shape,
}
use iom.Selection.Scan.{Outcome, scan_logits_lem}
use iom.Selection.Admission.{IsScratch, validate_host_scratch_sound}

-- Least significant byte first.
abbrev logits : List ℕ
logits = 128 ∷ 63 ∷ 0 ∷ 64 ∷ 64 ∷ 192 ∷ 0 ∷ 64 ∷ []

scan_run : scan_logits logits 4 ≡ ok 1
unfolding scan_logits scan_from load_bf16 decode_bf16 greater nonfinite
scan_run = refl

infinity_run : scan_logits (128 ∷ 63 ∷ 128 ∷ 127 ∷ []) 2 ≡ throws runtime_error
unfolding scan_logits scan_from load_bf16 decode_bf16 greater nonfinite
infinity_run = refl

scan_logits_lem_example : Outcome logits 4 (scan_logits logits 4)
scan_logits_lem_example = scan_logits_lem logits 4 (omega arith) (omega arith)

scratch_run : validate_host_scratch 4096 64 8 8192 512 ≡ ok tt
unfolding validate_host_scratch
scratch_run = refl

validate_host_scratch_sound_example : IsScratch 4096 64 8 8192 512
validate_host_scratch_sound_example =
    validate_host_scratch_sound 4096 64 8 8192 512 (omega arith) (omega arith) (omega arith)
      scratch_run

abbrev spec : TensorSpec
spec = record {
  shape = record { dimensions = 1 ∷ 50 ∷ [] };
  data_type = bf16;
  quantization = none_format;
}

shape_run : validate_logits_shape spec 50 ≡ ok 100
unfolding validate_logits_shape checked_mul
shape_run = refl
