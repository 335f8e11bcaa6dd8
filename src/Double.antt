-- ===== src/Double.antt =====
-- The floating-point numbers of the source, which the model takes as a parameter: a type with the
-- operations that AgnssServer/AssistData.c applies to `double` and `float`, those of math.h among
-- them. The source's rounding is that of the operations. A `float` is a number that `single`
-- returned.
mod Defs
mod Whole
pub use Defs.*
pub use Whole.{whole, whole-IsExact}
