-- ===== src/Queue/Sections.antt =====
-- The sections that change the nodes or the credits of a queue keep the invariant.
use iom.Base.{
  leb, ◌==◌, if◌then◌else◌, ==→eq, Bool-cases, Option-cases, max_word, Exception, ℕ, ◌+◌, ◌≤◌, ◌<◌,
  ◌≡◌, refl, sym, ap, subst, ◌∙◌, ◌≢◌, inl, inr, Bool, true, false, ◌||◌, Option, none, some, List,
  [], ◌∷◌, arith,
}
use iom.Queue.Nodes.{
  find, mark, erase, executing_count, executing_count-erase, executing_count-mark,
  executing_count-emplace, find-emplace_ne, find-mark_self, find-erase_ne, find-erase_self,
  emplace-Ascending, mark-Ascending, erase-Ascending,
}
use iom.Queue.{DeviceOps, admit, candidate, pick, credit_back, park, drop_node, reject, complete}
use iom.Queue.Credits.{IsValid, Same-IsValid, stopped}

distinct : (s t : ℕ) → s ≢ t → (s == t) ≡ false
distinct s t h = elim (Bool-cases (s == t)) [
  | inl same ↦ absurd (h (==→eq s t same))
  | inr other ↦ other
]

pub admit-IsValid :
    (q : DeviceOps) (p : Option ℕ) (s : ℕ) → p ≢ some s → IsValid q p → IsValid (admit q s).1 p
unfolding admit
admit-IsValid q p s other v = elim (Bool-cases q.admission_closing) [
  | inl closing ↦ rw (closing, admit) (Same-IsValid q _ p (refl, refl, refl) v)
  | inr going ↦ elim (Option-cases (find s q.admission_nodes)) [
    | inr (node, found) ↦ rw (going, found, admit) (Same-IsValid q _ p (refl, refl, refl) v)
    | inl fresh ↦
        rw (going, fresh, admit)
          (record {
            ascending = emplace-Ascending s q.admission_nodes v.ascending;
            counted = v.counted ∙ sym (executing_count-emplace s q.admission_nodes);
            bounded = v.bounded;
            word = v.word;
            running = λ t e.
                let apart : (s == t) ≡ false =
                  distinct s t (λ same. other (e ∙ ap some (sym same))) in
                subst (λ (o : Option Bool). o ≢ some false)
                  (sym (find-emplace_ne t s q.admission_nodes apart)) (v.running t e);
          })
  ]
]

-- What the loop over the queue picks is a node that is not executing.
pub candidate-parked :
    (nodes : List (ℕ × Bool)) (fifo : List ℕ) (s : ℕ)
    → (candidate nodes fifo).0 ≡ some s
    → find s nodes ≡ some false
unfolding candidate
candidate-parked nodes [] s e = cc
candidate-parked nodes (t ∷ fifo) s e = elim (Option-cases (find t nodes)) [
  | inl gone ↦ candidate-parked nodes fifo s (rw (gone, candidate) at e)
  | inr (true, found) ↦ candidate-parked nodes fifo s (rw (found, candidate) at e)
  | inr (false, found) ↦
      let same : some t ≡ some s = rw (found, candidate) at e in
      subst (λ (n : ℕ). find n nodes ≡ some false) (some-injective t s same) found
]
  where
    some-injective : (a b : ℕ) → some a ≡ some b → a ≡ b
    some-injective a b e = cc

has_room :
    (closing : Bool) (capacity credits : ℕ)
    → (closing || leb capacity credits) ≡ false
    → credits < capacity
has_room true capacity credits e = cc
has_room false capacity credits e = ground arith

pub pick-IsValid : (q : DeviceOps) → IsValid q none → IsValid (pick q).1 (pick q).0
unfolding pick
pick-IsValid q v =
    let full = q.admission_closing || leb q.admission_capacity q.admission_credits in
    elim (Bool-cases full) [
      | inl waits ↦ rw (waits, pick) (Same-IsValid q _ none (refl, refl, refl) v)
      | inr free ↦ elim (Option-cases (candidate q.admission_nodes q.admission_fifo).0) [
        | inl nothing ↦ rw (free, nothing, pick) (Same-IsValid q _ none (refl, refl, refl) v)
        | inr (s, found) ↦
            let idle = candidate-parked q.admission_nodes q.admission_fifo s found in
            let marked = executing_count-mark s false true q.admission_nodes idle in
            let room : q.admission_credits < q.admission_capacity =
              has_room q.admission_closing q.admission_capacity q.admission_credits free in
            rw (free, found, pick)
              (record {
                ascending = mark-Ascending s true q.admission_nodes v.ascending;
                counted = omega (arith, v.counted, marked, v.word, room);
                bounded = omega (arith, v.word, room);
                word = v.word;
                running = λ t e.
                    subst (λ (n : ℕ). find n (mark s true q.admission_nodes) ≢ some false)
                      (some_eq s t e)
                      (λ k.
                        not_both (sym (find-mark_self s false true q.admission_nodes idle) ∙ k));
              })
      ]
    ]
  where
    some_eq : (a b : ℕ) → some a ≡ some b → a ≡ b
    some_eq a b e = cc

    not_both : some true ≢ some false
    not_both e = cc

-- The credit of an executing node is given back.
credit_lem :
    (credits count : ℕ) (b : Bool)
    → credits ≤ max_word
    → credits ≡ (if b then 1 else 0) + count
    → (if b then credit_back credits else credits) ≡ count
credit_lem credits count true w e = ground arith
credit_lem credits count false w e = ground arith

pub park-IsValid : (q : DeviceOps) (s : ℕ) → IsValid q (some s) → IsValid (park q s) none
unfolding park
park-IsValid q s v = elim (Option-cases (find s q.admission_nodes)) [
  | inl gone ↦ rw (gone, park) (Same-IsValid q _ none (refl, refl, refl) (stopped q (some s) v))
  | inr (false, found) ↦ absurd (v.running s refl found)
  | inr (true, found) ↦
      let marked = executing_count-mark s true false q.admission_nodes found in
      let spent =
        credit_lem q.admission_credits (executing_count (mark s false q.admission_nodes)) true
          (omega (arith, v.bounded, v.word)) (omega (arith, v.counted, marked)) in
      rw (found, park)
        (record {
          ascending = mark-Ascending s false q.admission_nodes v.ascending;
          counted = spent;
          bounded = omega (arith, spent, marked, v.counted, v.bounded);
          word = v.word;
          running = λ t (e : none ≡ some t). cc;
        })
]

pub drop_node-IsValid :
    (q : DeviceOps) (p : Option ℕ) (s : ℕ) (b : Bool)
    → find s q.admission_nodes ≡ some b
    → IsValid q p
    → IsValid (drop_node q s b) p
drop_node-IsValid q p s b found v =
    let erased = executing_count-erase s b q.admission_nodes found in
    let spent =
      credit_lem q.admission_credits (executing_count (erase s q.admission_nodes)) b
        (omega (arith, v.bounded, v.word)) (v.counted ∙ erased) in
    record {
      ascending = erase-Ascending s q.admission_nodes v.ascending;
      counted = spent;
      bounded = omega (arith, spent, erased, v.counted, v.bounded);
      word = v.word;
      running = λ t e. elim (Bool-cases (s == t)) [
        | inl same ↦
            subst (λ (n : ℕ). find n (erase s q.admission_nodes) ≢ some false) (==→eq s t same)
              (λ k. none-no (sym (find-erase_self s q.admission_nodes v.ascending) ∙ k))
        | inr other ↦
            subst (λ (o : Option Bool). o ≢ some false)
              (sym (find-erase_ne t s q.admission_nodes other)) (v.running t e)
      ];
    }
  where
    none-no : none ≢ some false
    none-no e = cc

pub reject-IsValid : (q : DeviceOps) (p : Option ℕ) (s : ℕ) → IsValid q p → IsValid (reject q s).1 p
unfolding reject
reject-IsValid q p s v = elim (Option-cases (find s q.admission_nodes)) [
  | inl gone ↦ rw (gone, reject) v
  | inr (b, found) ↦ rw (found, reject) (drop_node-IsValid q p s b found v)
]

pub complete-IsValid :
    (q : DeviceOps) (p : Option ℕ) (s : ℕ) (x : Option Exception)
    → IsValid q p
    → IsValid (complete q s x).1 p
unfolding complete
complete-IsValid q p s x v = elim (Bool-cases (s == 0 || leb q.next_sequence s)) [
  | inl refused ↦ rw (refused, complete) v
  | inr accepted ↦ elim (Option-cases (find s q.admission_nodes)) [
    | inl gone ↦ rw (accepted, gone, complete) v
    | inr (b, found) ↦
        rw (accepted, found, complete)
          (Same-IsValid (drop_node q s b) _ p (refl, refl, refl)
            (drop_node-IsValid q p s b found v))
  ]
]
