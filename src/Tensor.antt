-- ===== src/Tensor.antt =====
-- src/tensor.cpp, src/tensor_view.cpp and include/iom/tensor.hpp: shapes, specifications, the
-- tiled layout and the views.
pub mod Checked
pub mod Shape
pub mod Layout
pub mod Codes
pub mod View
pub mod Tests
