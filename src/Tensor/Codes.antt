-- ===== src/Tensor/Codes.antt =====
-- The comparison of data types and of quantization formats, by the numbers of their values.
use iom.Base.{◌==◌, ==→eq, get_or, ℕ, ◌≡◌, refl, sym, ap, ◌∙◌, Bool, true, List, [], ◌∷◌}
use iom.Tensor.Shape.{
  DataType, QuantizationFormat, bool, i2, u2, i4, u4, i8, u8, i16, u16, i32, u32, i64, u64, f4_e2m1,
  f6_e2m3, f6_e3m2, f8_e4m3fn, f8_e5m2, f8_e8m0, f16, bf16, f32, f64, none_format, int8_symmetric,
  int8_asymmetric, int4_symmetric, int4_asymmetric, ocp_mxfp4, ocp_mxfp8_e4m3, ocp_mxfp8_e5m2,
  nvidia_nvfp4, ggml_q4_0, ggml_q4_1, ggml_q5_0, ggml_q5_1, ggml_q8_0, ggml_q2_k, ggml_q3_k,
  ggml_q4_k, ggml_q5_k, ggml_q6_k, tt_bfp2, tt_bfp2a, tt_bfp4, tt_bfp4a, tt_bfp8, tt_bfp8a,
}

unfoldable pub data_type_code : DataType → ℕ
data_type_code bool = 0
data_type_code i2 = 1
data_type_code u2 = 2
data_type_code i4 = 3
data_type_code u4 = 4
data_type_code i8 = 5
data_type_code u8 = 6
data_type_code i16 = 7
data_type_code u16 = 8
data_type_code i32 = 9
data_type_code u32 = 10
data_type_code i64 = 11
data_type_code u64 = 12
data_type_code f4_e2m1 = 13
data_type_code f6_e2m3 = 14
data_type_code f6_e3m2 = 15
data_type_code f8_e4m3fn = 16
data_type_code f8_e5m2 = 17
data_type_code f8_e8m0 = 18
data_type_code f16 = 19
data_type_code bf16 = 20
data_type_code f32 = 21
data_type_code f64 = 22

unfoldable pub format_code : QuantizationFormat → ℕ
format_code none_format = 0
format_code int8_symmetric = 1
format_code int8_asymmetric = 2
format_code int4_symmetric = 3
format_code int4_asymmetric = 4
format_code ocp_mxfp4 = 5
format_code ocp_mxfp8_e4m3 = 6
format_code ocp_mxfp8_e5m2 = 7
format_code nvidia_nvfp4 = 8
format_code ggml_q4_0 = 9
format_code ggml_q4_1 = 10
format_code ggml_q5_0 = 11
format_code ggml_q5_1 = 12
format_code ggml_q8_0 = 13
format_code ggml_q2_k = 14
format_code ggml_q3_k = 15
format_code ggml_q4_k = 16
format_code ggml_q5_k = 17
format_code ggml_q6_k = 18
format_code tt_bfp2 = 19
format_code tt_bfp2a = 20
format_code tt_bfp4 = 21
format_code tt_bfp4a = 22
format_code tt_bfp8 = 23
format_code tt_bfp8a = 24

unfoldable pub same_type : DataType → DataType → Bool
same_type a b = data_type_code a == data_type_code b

unfoldable pub same_format : QuantizationFormat → QuantizationFormat → Bool
same_format a b = format_code a == format_code b

abbrev data_types : List DataType
data_types =
    bool ∷ i2 ∷ u2 ∷ i4 ∷ u4 ∷ i8 ∷ u8 ∷ i16 ∷ u16 ∷ i32 ∷ u32 ∷ i64 ∷ u64 ∷ f4_e2m1 ∷ f6_e2m3
    ∷ f6_e3m2 ∷ f8_e4m3fn ∷ f8_e5m2 ∷ f8_e8m0 ∷ f16 ∷ bf16 ∷ f32 ∷ f64 ∷ []

data_type_code-inverse : (a : DataType) → get_or data_types (data_type_code a) bool ≡ a
unfolding data_type_code
data_type_code-inverse bool = refl
data_type_code-inverse i2 = refl
data_type_code-inverse u2 = refl
data_type_code-inverse i4 = refl
data_type_code-inverse u4 = refl
data_type_code-inverse i8 = refl
data_type_code-inverse u8 = refl
data_type_code-inverse i16 = refl
data_type_code-inverse u16 = refl
data_type_code-inverse i32 = refl
data_type_code-inverse u32 = refl
data_type_code-inverse i64 = refl
data_type_code-inverse u64 = refl
data_type_code-inverse f4_e2m1 = refl
data_type_code-inverse f6_e2m3 = refl
data_type_code-inverse f6_e3m2 = refl
data_type_code-inverse f8_e4m3fn = refl
data_type_code-inverse f8_e5m2 = refl
data_type_code-inverse f8_e8m0 = refl
data_type_code-inverse f16 = refl
data_type_code-inverse bf16 = refl
data_type_code-inverse f32 = refl
data_type_code-inverse f64 = refl

pub same_type-eq : (a b : DataType) → same_type a b ≡ true → a ≡ b
unfolding same_type
same_type-eq a b e =
    sym (data_type_code-inverse a)
    ∙ ap (λ (n : ℕ). get_or data_types n bool) (==→eq (data_type_code a) (data_type_code b) e)
    ∙ data_type_code-inverse b
