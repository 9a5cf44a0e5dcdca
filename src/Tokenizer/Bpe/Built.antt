-- ===== src/Tokenizer/Bpe/Built.antt =====
-- The nodes as the initial symbols leave them: each is alive and between its neighbours in place.
use iom.Base.{
  leb, ◌==◌, ◌!=◌, Bool-cases, length, set, length-append, length-set, get_or-set_self,
  get_or-set_ne, get_or-append_left, get_or-append_last, max_word, sub_word, Exception, ok, throws,
  ok-injective, ℕ, zero, suc, ◌-◌, ◌≤◌, ◌<◌, ◌≡◌, refl, sym, ap, subst, ◌∙◌, ◌≢◌, inl, inr, true,
  false, List, [], ◌∷◌, ◌++◌, arith, dec_lt, ℕ_discrete,
}
use iom.Tokenizer.Bpe.{BpeNode, node_at, dead, no_index, append_bpe_node}

-- `previous` and `next` as `append_bpe_node` leaves them.
abbrev pub before_of : ℕ → ℕ
before_of zero = no_index
before_of (suc i) = i

pub record FreshAt (nodes : List BpeNode) (i : ℕ) : Type 0 where
  pub alive : (node_at nodes i).alive ≡ true
  pub previous : (node_at nodes i).previous ≡ before_of i
  pub inner : suc i < length nodes → (node_at nodes i).next ≡ suc i
  pub last : suc i ≡ length nodes → (node_at nodes i).next ≡ no_index

pub record Fresh (limit : ℕ) (nodes : List BpeNode) : Type 0 where
  pub at : (i : ℕ) → i < length nodes → FreshAt nodes i
  pub short : length nodes ≤ limit

pub Fresh-nil : (limit : ℕ) → Fresh limit []
Fresh-nil limit = record { at = λ i h. absurd (omega (arith, h)); short = omega arith }

-- The nodes after the first, with one more.
module _ (nodes : List BpeNode) (id index : ℕ) (long : length nodes ≡ suc index) where
  abbrev joined : List BpeNode
  joined = set nodes index (record (node_at nodes index) { next = suc index })

  abbrev added : BpeNode
  added = record {
    id = id;
    previous = sub_word (suc index) 1;
    next = no_index;
    generation = 0;
    alive = true;
  }

  abbrev joined_long : length joined ≡ suc index
  joined_long = length-set nodes index _ ∙ long

  longer : length (joined ++ (added ∷ [])) ≡ suc (suc index)
  longer = omega (arith, length-append joined (added ∷ []), joined_long)

  node_added : node_at (joined ++ (added ∷ [])) (suc index) ≡ added
  node_added =
      subst (λ (m : ℕ). node_at (joined ++ (added ∷ [])) m ≡ added) joined_long
        (get_or-append_last joined added dead)

  node_joined :
      node_at (joined ++ (added ∷ [])) index ≡ record (node_at nodes index) { next = suc index }
  node_joined =
      get_or-append_left joined (added ∷ []) index dead (omega (arith, joined_long))
      ∙ get_or-set_self nodes index _ dead (omega (arith, long))

  node_other : (i : ℕ) → i < index → node_at (joined ++ (added ∷ [])) i ≡ node_at nodes i
  node_other i h =
      get_or-append_left joined (added ∷ []) i dead (omega (arith, h, joined_long))
      ∙ get_or-set_ne nodes index i _ dead (λ e. omega (arith, e, h))

  fresh_added : suc index ≤ max_word → FreshAt (joined ++ (added ∷ [])) (suc index)
  fresh_added word = record {
    alive = ap (λ (b : BpeNode). b.alive) node_added;
    previous = ap (λ (b : BpeNode). b.previous) node_added ∙ back index word;
    inner = λ h. absurd (omega (arith, h, longer));
    last = λ h. ap (λ (b : BpeNode). b.next) node_added;
  }
    where
      back : (n : ℕ) → suc n ≤ max_word → sub_word (suc n) 1 ≡ n
      back n h = omega (arith, h)

  fresh_joined : FreshAt nodes index → FreshAt (joined ++ (added ∷ [])) index
  fresh_joined f = record {
    alive = ap (λ (b : BpeNode). b.alive) node_joined ∙ f.alive;
    previous = ap (λ (b : BpeNode). b.previous) node_joined ∙ f.previous;
    inner = λ h. ap (λ (b : BpeNode). b.next) node_joined;
    last = λ h. absurd (omega (arith, h, longer));
  }

  fresh_other : (i : ℕ) → i < index → FreshAt nodes i → FreshAt (joined ++ (added ∷ [])) i
  fresh_other i h f = record {
    alive = ap (λ (b : BpeNode). b.alive) (node_other i h) ∙ f.alive;
    previous = ap (λ (b : BpeNode). b.previous) (node_other i h) ∙ f.previous;
    inner = λ k. ap (λ (b : BpeNode). b.next) (node_other i h) ∙ f.inner (omega (arith, h, long));
    last = λ k. absurd (omega (arith, h, k, longer));
  }

  fresh_all :
      (limit : ℕ)
      → Fresh limit nodes
      → limit ≤ max_word
      → length nodes < limit
      → Fresh limit (joined ++ (added ∷ []))
  fresh_all limit f word room = record {
    at = λ i h. elim (ℕ_discrete i (suc index)) [
      | yes e ↦
          subst (FreshAt (joined ++ (added ∷ []))) (sym e)
            (fresh_added (omega (arith, long, room, word)))
      | no far ↦ elim (ℕ_discrete i index) [
        | yes e ↦
            subst (FreshAt (joined ++ (added ∷ []))) (sym e)
              (fresh_joined (f.at index (omega (arith, long))))
        | no apart ↦
            let below = within i (omega (arith, h, longer)) far apart in
            fresh_other i below (f.at i (omega (arith, below, long)))
      ]
    ];
    short = omega (arith, longer, long, room);
  }
    where
      within : (i : ℕ) → i < suc (suc index) → i ≢ suc index → i ≢ index → i < index
      within i h far apart = elim (dec_lt i index) [
        | yes lt ↦ lt
        | no ge ↦ absurd (elim (dec_lt index i) [
          | yes gt ↦ far (omega (arith, gt, h))
          | no le ↦ apart (omega (arith, ge, le))
        ])
      ]

fresh_first :
    (limit id : ℕ) (n : BpeNode)
    → n.alive ≡ true
    → n.previous ≡ no_index
    → n.next ≡ no_index
    → 0 < limit
    → Fresh limit (n ∷ [])
fresh_first limit id n alive previous next room = record {
  at = λ i h. at_zero i (omega (arith, h));
  short = omega (arith, room);
}
  where
    at_zero : (i : ℕ) → i ≤ 0 → FreshAt (n ∷ []) i
    at_zero zero h = record {
      alive = alive;
      previous = previous;
      inner = λ k. absurd (omega (arith, k));
      last = λ k. next;
    }
    at_zero (suc i) h = absurd (omega (arith, h))

unequal : (m : ℕ) → (suc m != 0) ≡ true
unequal m = ground arith

nonzero : (m : ℕ) → (suc m == 0) ≡ false
nonzero m = ground arith

minus_one : (m : ℕ) → suc m - 1 ≡ m
minus_one m = omega arith

pub append_bpe_node-Fresh :
    (limit : ℕ) (nodes : List BpeNode) (id : ℕ) {nodes' : List BpeNode}
    → limit ≤ max_word
    → Fresh limit nodes
    → append_bpe_node limit nodes id ≡ ok nodes'
    → Fresh limit nodes'
unfolding append_bpe_node
append_bpe_node-Fresh limit [] id {nodes'} word f e = elim (Bool-cases (leb limit 0)) [
  | inl full ↦ absurd (refused (rw (full, append_bpe_node) at e))
  | inr room ↦
      subst (Fresh limit) (ok-injective _ nodes' (rw (room, append_bpe_node) at e))
        (fresh_first limit id _ refl refl refl (above limit 0 room))
]
  where
    refused : {x : Exception} → throws x ≡ ok nodes' → ⊥
    refused e = cc

    above : (a b : ℕ) → leb a b ≡ false → b < a
    above a b h = ground arith
append_bpe_node-Fresh limit (n ∷ nodes) id {nodes'} word f e =
    let m = length nodes in
    elim (Bool-cases (leb limit (suc (length nodes)))) [
      | inl full ↦ absurd (refused (rw (full, append_bpe_node) at e))
      | inr room ↦
          subst (Fresh limit)
            (ok-injective _ nodes'
              (rw (room, unequal m, nonzero m, minus_one m, append_bpe_node) at e))
            (fresh_all (n ∷ nodes) id (length nodes) refl limit f word
              (above limit (suc (length nodes)) room))
    ]
  where
    refused : {x : Exception} → throws x ≡ ok nodes' → ⊥
    refused e = cc

    above : (a b : ℕ) → leb a b ≡ false → b < a
    above a b h = ground arith
