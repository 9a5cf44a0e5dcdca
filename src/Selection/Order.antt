-- ===== src/Selection/Order.antt =====
-- The order of finite floating-point values, as `>` decides it.
use iom.Base.{◌≡◌, true, false, arith}
use iom.Selection.{Float, greater}

pub greater_irreflexive : (a : Float) → greater a a ≡ false
unfolding greater
greater_irreflexive a = ground arith

-- "Not greater" is transitive.
pub greater_transitive :
    (a b c : Float) → greater a b ≡ false → greater b c ≡ false → greater a c ≡ false
unfolding greater
greater_transitive a b c h k = ground arith

-- What exceeds a bound exceeds all below it.
pub greater_above : (v b x : Float) → greater v b ≡ true → greater x b ≡ false → greater v x ≡ true
unfolding greater
greater_above v b x h k = ground arith

pub greater_asymmetric : (v b : Float) → greater v b ≡ true → greater b v ≡ false
unfolding greater
greater_asymmetric v b h = ground arith
