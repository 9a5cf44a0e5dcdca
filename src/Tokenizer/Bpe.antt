-- ===== src/Tokenizer/Bpe.antt =====
-- src/tokenizer.cpp: byte-pair merging over a linked list of symbols, with a heap of candidate
-- pairs. The tables of the vocabulary are functions. A container's greatest size is a parameter.
pub mod Rounds
pub mod Heap
pub mod Chain
pub mod Merged
pub mod Relinked
pub mod Renamed
pub mod Start
pub mod Built
pub mod Listed
pub mod Current
pub mod Invariant
pub mod Pick
pub mod Loop
pub mod Greedy
pub mod Applied
use iom.Base.{
  ltb, leb, ◌==◌, ◌!=◌, if◌then◌else◌, ltb→lt, lt→ltb, ltb→le, le→ltb, ==→eq, eq→==, Bool-cases,
  Option-cases, length, get_elem?, get_or, set, take, drop, replicate, length-append, length-set,
  length-replicate, get_or-set_self, get_or-set_ne, sum, product, All, word_mod, max_word, add_word,
  sub_word, mul_word, Exception, invalid_argument, overflow_error, out_of_range, bad_alloc,
  runtime_error, logic_error, Result, ok, throws, ◌>>=◌, ◌>>◌, require, >>=-eq-ok, require-eq-ok,
  ok-injective, ℕ, zero, suc, ◌+◌, ◌-◌, ◌*◌, ◌/◌, ◌%◌, ◌^◌, ◌≤◌, ◌<◌, bit_and, ◌≡◌, refl, sym, ap,
  subst, ◌∙◌, ◌≢◌, ◌↔◌, ◌⊎◌, inl, inr, Bool, true, false, not, ◌&&◌, ◌||◌, Option, none, some, List,
  [], ◌∷◌, ◌++◌, map, arith, dec_lt, ℕ_discrete,
}

-- `kNoBpeIndex`
abbrev pub no_index : ℕ
no_index = max_word

pub record BpeNode : Type 0 where
  pub id : ℕ
  pub previous : ℕ
  pub next : ℕ
  pub generation : ℕ
  pub alive : Bool

pub record BpeHeapEntry : Type 0 where
  pub rank : ℕ
  pub left : ℕ
  pub right : ℕ
  pub left_generation : ℕ
  pub right_generation : ℕ
  pub left_id : ℕ
  pub right_id : ℕ

-- `BpeHeapCompare`, which tells what stands lower in the heap: by rank, then from the left.
unfoldable pub lower : BpeHeapEntry → BpeHeapEntry → Bool
lower lhs rhs =
    if lhs.rank != rhs.rank
    then ltb rhs.rank lhs.rank
    else if lhs.left != rhs.left
    then ltb rhs.left lhs.left
    else ltb rhs.right lhs.right

-- The priority queue as the list of its entries, the top first. Of entries that the comparison does
-- not tell apart, the one pushed last is nearer the top.
unfoldable pub push_heap : BpeHeapEntry → List BpeHeapEntry → List BpeHeapEntry
push_heap entry [] = entry ∷ []
push_heap entry (e ∷ heap) = if lower entry e then e ∷ push_heap entry heap else entry ∷ e ∷ heap

-- `merge_ranks` and `merge_result_ids`, of a left and a right token.
pub record Merges : Type 0 where
  pub rank_of : ℕ → ℕ → Option ℕ
  pub result_of : ℕ → ℕ → Option ℕ

pub record MergeQueue : Type 0 where
  pub heap : List BpeHeapEntry
  pub pushes : ℕ

abbrev pub dead : BpeNode
dead = record { id = 0; previous = no_index; next = no_index; generation = 0; alive = false }

abbrev pub node_at : List BpeNode → ℕ → BpeNode
node_at nodes i = get_or nodes i dead

unfoldable pub append_bpe_node : ℕ → List BpeNode → ℕ → Result (List BpeNode)
append_bpe_node limit nodes id =
    let index = length nodes in
    let node : BpeNode = record {
      id = id;
      previous = if index == 0 then no_index else sub_word index 1;
      next = no_index;
      generation = 0;
      alive = true;
    } in
    let last = node_at nodes (index - 1) in
    if leb limit index
    then throws overflow_error
    else if index != 0
    then ok (set nodes (index - 1) (record last { next = index }) ++ (node ∷ []))
    else ok (nodes ++ (node ∷ []))

-- Two nodes that are alive and next to each other.
abbrev pub linked : BpeNode → BpeNode → ℕ → ℕ → Bool
linked l r left right = l.alive && r.alive && l.next == right && r.previous == left

unfoldable pub queue_pair : Merges → ℕ → List BpeNode → ℕ → ℕ → MergeQueue → Result MergeQueue
queue_pair merges limit nodes left right q =
    let l = node_at nodes left in
    let r = node_at nodes right in
    if left == no_index || right == no_index
    then ok q
    else if leb (length nodes) left || leb (length nodes) right
    then throws logic_error
    else if not (linked l r left right)
    then ok q
    else elim (merges.rank_of l.id r.id) [
      | none ↦ ok q
      | some rank ↦ elim (merges.result_of l.id r.id) [
        | none ↦ throws logic_error
        | some result ↦
            if leb limit q.pushes
            then throws overflow_error
            else ok (record {
              heap =
                  push_heap
                    (record {
                      rank = rank;
                      left = left;
                      right = right;
                      left_generation = l.generation;
                      right_generation = r.generation;
                      left_id = l.id;
                      right_id = r.id;
                    })
                    q.heap;
              pushes = add_word q.pushes 1;
            })
      ]
    ]

-- The first loop, over the nodes from `index` on.
unfoldable pub queue_all : Merges → ℕ → List BpeNode → ℕ → ℕ → MergeQueue → Result MergeQueue
queue_all merges limit nodes zero index q = ok q
queue_all merges limit nodes (suc rounds) index q =
    queue_pair merges limit nodes index (node_at nodes index).next q >>= λ q'.
    queue_all merges limit nodes rounds (suc index) q'

-- Whether an entry is about the nodes as they are now.
unfoldable pub current : List BpeNode → BpeHeapEntry → Bool
current nodes entry =
    let l = node_at nodes entry.left in
    let r = node_at nodes entry.right in
    ltb entry.left (length nodes)
    && ltb entry.right (length nodes)
    && linked l r entry.left entry.right
    && l.generation == entry.left_generation
    && r.generation == entry.right_generation
    && l.id == entry.left_id
    && r.id == entry.right_id

-- The successor of a merged pair points back to it.
unfoldable pub relink : List BpeNode → ℕ → ℕ → Result (List BpeNode)
relink nodes next left =
    let n = node_at nodes next in
    if next == no_index
    then ok nodes
    else if leb (length nodes) next
    then throws logic_error
    else ok (set nodes next (record n { previous = left }))

-- The right node of the pair goes into the left one.
unfoldable pub merge_nodes : List BpeNode → BpeHeapEntry → ℕ → Result (List BpeNode)
merge_nodes nodes entry id =
    let l = node_at nodes entry.left in
    let r = node_at nodes entry.right in
    let merged =
      set nodes entry.left
        (record l { id = id; next = r.next; generation = add_word l.generation 1 }) in
    let gone = node_at merged entry.right in
    if l.generation == max_word
    then throws overflow_error
    else relink
        (set merged entry.right
          (record gone { alive = false; previous = no_index; next = no_index }))
        r.next entry.left

-- One round of the second loop, for the entry that was on top.
unfoldable pub merge_entry :
    Merges → ℕ → List BpeNode → BpeHeapEntry → MergeQueue → Result (List BpeNode × MergeQueue)
merge_entry merges limit nodes entry q =
    let l = node_at nodes entry.left in
    let r = node_at nodes entry.right in
    elim (current nodes entry) [
      | false ↦ ok (nodes, q)
      | true ↦ elim (merges.result_of l.id r.id) [
        | none ↦ throws logic_error
        | some id ↦ merge_nodes nodes entry id >>= λ nodes'.
            queue_pair merges limit nodes' l.previous entry.left q >>= λ q'.
            queue_pair merges limit nodes' entry.left r.next q' >>= λ q''. ok (nodes', q'')
      ]
    ]

-- The second loop. `none` means that the rounds ran out.
unfoldable pub merge_all :
    ℕ → Merges → ℕ → List BpeNode → MergeQueue → Option (Result (List BpeNode))
merge_all zero merges limit nodes q = none
merge_all (suc rounds) merges limit nodes q = elim q.heap [
  | [] ↦ some (ok nodes)
  | entry ∷ heap ↦ elim (merge_entry merges limit nodes entry (record q { heap = heap })) [
    | throws e ↦ some (throws e)
    | ok (nodes', q') ↦ merge_all rounds merges limit nodes' q'
  ]
]

unfoldable pub encode_checked_mul : ℕ → ℕ → Result ℕ
encode_checked_mul left right =
    if left != 0 && ltb (max_word / left) right
    then throws overflow_error
    else ok (mul_word left right)

-- One round for each push that the limit lets through, and one for the empty heap.
unfoldable pub apply_encode_bpe : ℕ → Merges → List BpeNode → Option (Result (List BpeNode))
apply_encode_bpe heap_max merges nodes =
    if length nodes == 0 then some (ok nodes) else elim (encode_checked_mul (length nodes) 3) [
      | throws e ↦ some (throws e)
      | ok limit ↦
          if ltb heap_max limit
          then some (throws overflow_error)
          else elim (queue_all merges limit nodes (length nodes) 0
              (record { heap = []; pushes = 0 })) [
                | throws e ↦ some (throws e)
                | ok q ↦ merge_all (suc limit) merges limit nodes q
              ]
    ]
