-- ===== src/Tokenizer/Bpe/Merged.antt =====
-- What merging a pair does to the nodes, and to their list.
use iom.Base.{
  leb, ◌==◌, ==→eq, Bool-cases, length, set, length-set, get_or-set_self, get_or-set_ne, max_word,
  add_word, Exception, ok, throws, ok-injective, ℕ, ◌<◌, ◌≡◌, sym, ap, subst, ◌∙◌, ◌≢◌, inl, inr,
  false, List, arith,
}
use iom.Tokenizer.Bpe.{BpeNode, BpeHeapEntry, node_at, dead, no_index, relink, merge_nodes}

pub record Merged (nodes nodes' : List BpeNode) (i j n id : ℕ) : Type 0 where
  pub size : length nodes' ≡ length nodes
  pub left : node_at nodes' i ≡ record (node_at nodes i) {
    id = id;
    next = n;
    generation = add_word (node_at nodes i).generation 1;
  }
  pub right : (node_at nodes' j).alive ≡ false
  pub successor : n ≢ no_index → node_at nodes' n ≡ record (node_at nodes n) { previous = i }
  pub others : (m : ℕ) → m ≢ i → m ≢ j → m ≢ n → node_at nodes' m ≡ node_at nodes m

-- The nodes with both of the pair set, before the successor is.
abbrev pair_set : List BpeNode → ℕ → ℕ → ℕ → List BpeNode
pair_set nodes i j id =
    let l = node_at nodes i in
    let r = node_at nodes j in
    let merged =
      set nodes i (record l { id = id; next = r.next; generation = add_word l.generation 1 }) in
    set merged j (record (node_at merged j) { alive = false; previous = no_index; next = no_index })

module _ (nodes : List BpeNode) (i j id : ℕ) (hi : i < length nodes) (hj : j < length nodes)
    (apart : i ≢ j) where
  abbrev n : ℕ
  n = (node_at nodes j).next

  abbrev new_left : BpeNode
  new_left = record (node_at nodes i) {
    id = id;
    next = n;
    generation = add_word (node_at nodes i).generation 1;
  }

  abbrev left_set : List BpeNode
  left_set = set nodes i new_left

  abbrev new_right : BpeNode
  new_right = record (node_at left_set j) { alive = false; previous = no_index; next = no_index }

  length-pair_set : length (pair_set nodes i j id) ≡ length nodes
  length-pair_set = length-set left_set j new_right ∙ length-set nodes i new_left

  pair_set_left : node_at (pair_set nodes i j id) i ≡ new_left
  pair_set_left =
      get_or-set_ne left_set j i new_right dead (λ e. apart (sym e))
      ∙ get_or-set_self nodes i new_left dead hi

  pair_set_right : node_at (pair_set nodes i j id) j ≡ new_right
  pair_set_right =
      get_or-set_self left_set j new_right dead (omega (arith, hj, length-set nodes i new_left))

  pair_set_other : (m : ℕ) → m ≢ i → m ≢ j → node_at (pair_set nodes i j id) m ≡ node_at nodes m
  pair_set_other m hm km =
      get_or-set_ne left_set j m new_right dead (λ e. km (sym e))
      ∙ get_or-set_ne nodes i m new_left dead (λ e. hm (sym e))

  -- No successor is set.
  Merged-last : n ≡ no_index → Merged nodes (pair_set nodes i j id) i j n id
  Merged-last last = record {
    size = length-pair_set;
    left = pair_set_left;
    right = ap (λ (b : BpeNode). b.alive) pair_set_right;
    successor = λ more. absurd (more last);
    others = λ m hm km lm. pair_set_other m hm km;
  }

  -- The successor points back to the left node.
  Merged-inner :
      n < length nodes
      → n ≢ i
      → n ≢ j
      → Merged nodes
          (set
            (pair_set nodes i j id)
            n
            (record (node_at (pair_set nodes i j id) n) { previous = i }))
          i
          j
          n
          id
  Merged-inner inside ni nj =
      let all = pair_set nodes i j id in
      let new_next : BpeNode = record (node_at all n) { previous = i } in
      record {
        size = length-set all n new_next ∙ length-pair_set;
        left = get_or-set_ne all n i new_next dead ni ∙ pair_set_left;
        right =
            ap (λ (b : BpeNode). b.alive) (get_or-set_ne all n j new_next dead nj ∙ pair_set_right);
        successor = λ more.
            get_or-set_self all n new_next dead (omega (arith, inside, length-pair_set))
            ∙ ap (λ (b : BpeNode). record b { previous = i }) (pair_set_other n ni nj);
        others = λ m hm km lm.
            get_or-set_ne all n m new_next dead (λ e. lm (sym e)) ∙ pair_set_other m hm km;
      }

pub merge_nodes-Merged :
    (nodes : List BpeNode) (entry : BpeHeapEntry) (id : ℕ) {nodes' : List BpeNode}
    → entry.left < length nodes
    → entry.right < length nodes
    → entry.left ≢ entry.right
    → (node_at nodes entry.right).next ≢ entry.left
    → (node_at nodes entry.right).next ≢ entry.right
    → merge_nodes nodes entry id ≡ ok nodes'
    → Merged nodes nodes' entry.left entry.right (node_at nodes entry.right).next id
unfolding merge_nodes relink
merge_nodes-Merged nodes entry id {nodes'} hi hj apart ni nj e =
    let i = entry.left in
    let j = entry.right in
    let next = (node_at nodes j).next in
    let all = pair_set nodes i j id in
    elim (Bool-cases ((node_at nodes i).generation == max_word)) [
      | inl worn ↦ absurd (refused (rw (worn, merge_nodes) at e))
      | inr fresh ↦ elim (Bool-cases (next == no_index)) [
        | inl last ↦
            subst (λ (k : List BpeNode). Merged nodes k i j next id)
              (ok-injective all nodes' (rw (fresh, last, merge_nodes, relink) at e))
              (Merged-last nodes i j id hi hj apart (==→eq next no_index last))
        | inr more ↦ elim (Bool-cases (leb (length all) next)) [
          | inl outside ↦ absurd (refused (rw (fresh, more, outside, merge_nodes, relink) at e))
          | inr inside ↦
              subst (λ (k : List BpeNode). Merged nodes k i j next id)
                (ok-injective _ nodes' (rw (fresh, more, inside, merge_nodes, relink) at e))
                (Merged-inner nodes i j id hi hj apart
                  (within (length all) (length nodes) next
                    (length-pair_set nodes i j id hi hj apart) inside)
                  ni nj)
        ]
      ]
    ]
  where
    refused : {x : Exception} → throws x ≡ ok nodes' → ⊥
    refused e = cc

    within : (a b n : ℕ) → a ≡ b → leb a n ≡ false → n < b
    within a b n e h = ground arith
