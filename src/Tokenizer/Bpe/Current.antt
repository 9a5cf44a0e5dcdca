-- ===== src/Tokenizer/Bpe/Current.antt =====
-- When an entry of the heap is about the nodes as they are.
use iom.Base.{ltb→lt, lt→ltb, ==→eq, eq→==, length, ◌≡◌, refl, Bool, true, ◌&&◌, List, arith}
use iom.Tokenizer.Bpe.{BpeNode, BpeHeapEntry, node_at, current}
use iom.Tokenizer.Bpe.Heap.{Pair}

-- What an entry says of the nodes that it names.
pub record Says (nodes : List BpeNode) (e : BpeHeapEntry) : Type 0 where
  pub pair : Pair nodes e.left e.right
  pub left_generation : (node_at nodes e.left).generation ≡ e.left_generation
  pub right_generation : (node_at nodes e.right).generation ≡ e.right_generation
  pub left_id : (node_at nodes e.left).id ≡ e.left_id
  pub right_id : (node_at nodes e.right).id ≡ e.right_id

-- A conjunction of seven tests, one by one.
record Seven (a b c d e f g : Bool) : Type 0 where
  one : a ≡ true
  two : b ≡ true
  three : c ≡ true
  four : d ≡ true
  five : e ≡ true
  six : f ≡ true
  seven : g ≡ true

all-Seven : (a b c d e f g : Bool) → (a && b && c && d && e && f && g) ≡ true → Seven a b c d e f g
all-Seven a b c d e f g h = record {
  one = ground arith;
  two = ground arith;
  three = ground arith;
  four = ground arith;
  five = ground arith;
  six = ground arith;
  seven = ground arith;
}

pub current-Says : (nodes : List BpeNode) (e : BpeHeapEntry) → current nodes e ≡ true → Says nodes e
unfolding current
current-Says nodes e h =
    let s = all-Seven _ _ _ _ _ _ _ h in
    record {
      pair = (ltb→lt _ _ s.one, ltb→lt _ _ s.two, s.three);
      left_generation = ==→eq _ _ s.four;
      right_generation = ==→eq _ _ s.five;
      left_id = ==→eq _ _ s.six;
      right_id = ==→eq _ _ s.seven;
    }

pub Says-current : (nodes : List BpeNode) (e : BpeHeapEntry) → Says nodes e → current nodes e ≡ true
unfolding current
Says-current nodes e s =
    let (hi, hj, together) = s.pair in
    rw
      (
        lt→ltb e.left (length nodes) hi,
        lt→ltb e.right (length nodes) hj,
        together,
        eq→== _ _ s.left_generation,
        eq→== _ _ s.right_generation,
        eq→== _ _ s.left_id,
        eq→== _ _ s.right_id,
      )
      refl
