-- ===== src/ListHead/Relink.antt =====
-- A node that is taken out of its list, and put behind another head or none.
use utils_c.Base.{
  ℕ, ◌≡◌, ◌≢◌, refl, sym, ap, subst, ◌⊎◌, inl, inr, Option, none, some, some_injective, [], ◌∷◌, In,
  NoRepeat, In-append, In-append_left, In-append_right, In-remove, In-remove_other, remove-NoRepeat,
  append-NoRepeat,
}
use utils_c.ListHead.{ListOps, ListLaws, IsFree}

-- The store `s'` is `s` with the node `i` at the end of the list behind `dest` alone.
pub record Relinks {H S : Type 0} (ops : ListOps H S) (s s' : S) (i : ℕ) (dest : Option H)
    : Type 0 where
  pub members :
      (h : H) (j : ℕ)
      → In j (ops.entries s' h)
      → ((j ≡ i) × (dest ≡ some h)) ⊎ ((j ≢ i) × In j (ops.entries s h))
  pub keeps : (h : H) (j : ℕ) → j ≢ i → In j (ops.entries s h) → In j (ops.entries s' h)
  pub placed : (h : H) → dest ≡ some h → In i (ops.entries s' h)
  pub once : ((h : H) → NoRepeat (ops.entries s h)) → (h : H) → NoRepeat (ops.entries s' h)

module _ {H S : Type 0} (ops : ListOps H S) (laws : ListLaws ops) where
  pub del-IsFree : (s : S) (i : ℕ) (h : H) → In i (ops.entries s h) → IsFree ops (ops.del s i) i
  del-IsFree s i h m g n =
      (In-remove i i (ops.entries s g) (subst (In i) (laws.del_entries s i h g m) n)).0 refl

  pub del-Relinks :
      (s : S) (i : ℕ) (h : H) → In i (ops.entries s h) → Relinks ops s (ops.del s i) i none
  del-Relinks s i h m = record {
    members = λ g j n.
        inr (In-remove i j (ops.entries s g) (subst (In j) (laws.del_entries s i h g m) n));
    keeps = λ g j ne n.
        subst (In j) (sym (laws.del_entries s i h g m))
          (In-remove_other i j (ops.entries s g) ne n);
    placed = λ g e. cc;
    once = λ all g.
        subst NoRepeat (sym (laws.del_entries s i h g m))
          (remove-NoRepeat i (ops.entries s g) (all g));
  }

  -- Heads can be told apart.
  module _ (apart : (g h : H) → (g ≡ h) ⊎ (g ≢ h)) where
    -- A node that was in no list is now in the list behind `g` as well as what was there.
    link-Relinks :
        (s s' : S) (i : ℕ) (g : H)
        → IsFree ops s i
        → ((h : H) → h ≢ g → ops.entries s' h ≡ ops.entries s h)
        → ((j : ℕ) → In j (ops.entries s' g) → (j ≡ i) ⊎ In j (ops.entries s g))
        → ((j : ℕ) → In j (ops.entries s g) → In j (ops.entries s' g))
        → In i (ops.entries s' g)
        → (NoRepeat (ops.entries s g) → NoRepeat (ops.entries s' g))
        → Relinks ops s s' i (some g)
    link-Relinks s s' i g free other within keeps here once = record {
      members = λ h j n. elim (apart h g) [
        | inl e ↦ elim (within j (subst (λ k. In j (ops.entries s' k)) e n)) [
          | inl f ↦ inl (f, ap some (sym e))
          | inr m ↦ inr (
            (λ f. free g (subst (λ k. In k (ops.entries s g)) f m)),
            subst (λ k. In j (ops.entries s k)) (sym e) m,
          )
        ]
        | inr ne ↦
            let m = subst (In j) (other h ne) n in
            inr ((λ f. free h (subst (λ k. In k (ops.entries s h)) f m)), m)
      ];
      keeps = λ h j ne n. elim (apart h g) [
        | inl e ↦
            subst (λ k. In j (ops.entries s' k)) (sym e)
              (keeps j (subst (λ k. In j (ops.entries s k)) e n))
        | inr nh ↦ subst (In j) (sym (other h nh)) n
      ];
      placed = λ h e. subst (λ k. In i (ops.entries s' k)) (some_injective e) here;
      once = λ all h. elim (apart h g) [
        | inl e ↦ subst (λ k. NoRepeat (ops.entries s' k)) (sym e) (once (all g))
        | inr nh ↦ subst NoRepeat (sym (other h nh)) (all h)
      ];
    }

    -- A node that is in no list is put at the end of a list.
    pub add_tail-Relinks :
        (s : S) (i : ℕ) (g : H) → IsFree ops s i → Relinks ops s (ops.add_tail s i g) i (some g)
    add_tail-Relinks s i g free =
        let here = laws.add_tail_here s i g free in
        let old = ops.entries s g in
        link-Relinks s (ops.add_tail s i g) i g free (λ h ne. laws.add_tail_other s i g h free ne)
          (λ j n. elim (In-append j old (i ∷ []) (subst (In j) here n)) [
            | inl m ↦ inr m
            | inr m ↦ elim m [ inl f ↦ inl f | inr z ↦ absurd z ]
          ])
          (λ j n. subst (In j) (sym here) (In-append_left j old (i ∷ []) n))
          (subst (In i) (sym here) (In-append_right i old (i ∷ []) (inl refl)))
          (λ w. subst NoRepeat (sym here) (append-NoRepeat i old w (free g)))

    -- The same at the front.
    pub add_head-Relinks :
        (s : S) (i : ℕ) (g : H) → IsFree ops s i → Relinks ops s (ops.add_head s i g) i (some g)
    add_head-Relinks s i g free =
        let here = laws.add_head_here s i g free in
        link-Relinks s (ops.add_head s i g) i g free (λ h ne. laws.add_head_other s i g h free ne)
          (λ j n. subst (In j) here n) (λ j n. subst (In j) (sym here) (inr n))
          (subst (In i) (sym here) (inl refl)) (λ w. subst NoRepeat (sym here) (free g, w))

    -- A node is moved from its list to another.
    pub move-Relinks :
        (s : S) (i : ℕ) (h g : H)
        → In i (ops.entries s h)
        → Relinks ops s (ops.add_tail (ops.del s i) i g) i (some g)
    move-Relinks s i h g m =
        let out = del-Relinks s i h m in
        let back = add_tail-Relinks (ops.del s i) i g (del-IsFree s i h m) in
        record {
          members = λ k j n. elim (back.members k j n) [
            | inl a ↦ inl a
            | inr b ↦ elim (out.members k j b.1) [ inl z ↦ absurd (b.0 z.0) | inr d ↦ inr d ]
          ];
          keeps = λ k j ne n. back.keeps k j ne (out.keeps k j ne n);
          placed = back.placed;
          once = λ all. back.once (out.once all);
        }
