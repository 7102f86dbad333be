-- ===== src/ListHead/Plain.antt =====
-- A store that meets the laws: for each head the list of its nodes.
use utils_c.Base.{
  ℕ, ◌≡◌, ◌≢◌, ◌↔◌, refl, inl, inr, Bool, true, Bool-cases, if◌then◌else◌, List, [], ◌∷◌, ◌++◌,
  remove,
}
use utils_c.ListHead.{ListOps, ListLaws}

abbrev pub write_list {ℓ} : {H : Type ℓ} → (H → H → Bool) → (H → List ℕ) → H → List ℕ → H → List ℕ
write_list eq s h xs g = if eq g h then xs else s g

abbrev pub plain : {H : Type 0} → (H → H → Bool) → ListOps H (H → List ℕ)
plain eq = record {
  init = λ s h. write_list eq s h [];
  add_head = λ s i h. write_list eq s h (i ∷ s h);
  add_tail = λ s i h. write_list eq s h (s h ++ i ∷ []);
  del = λ s i g. remove i (s g);
  entries = λ s h. s h;
}

module _ {H : Type 0} (eq : H → H → Bool) (eq_iff : (g h : H) → (eq g h ≡ true) ↔ (g ≡ h)) where
  write_list_here : (s : H → List ℕ) (h : H) (xs : List ℕ) → write_list eq s h xs h ≡ xs
  write_list_here s h xs = rw ((eq_iff h h).1 refl)

  write_list_other : (s : H → List ℕ) (h g : H) (xs : List ℕ) → g ≢ h → write_list eq s h xs g ≡ s g
  write_list_other s h g xs ne = elim (Bool-cases (eq g h)) [
    | inl e ↦ absurd (ne ((eq_iff g h).0 e))
    | inr e ↦ rw e
  ]

  pub plain-ListLaws : ListLaws (plain eq)
  plain-ListLaws = record {
    init_here = λ s h. write_list_here s h [];
    init_other = λ s h g ne. write_list_other s h g [] ne;
    add_head_here = λ s i h free. write_list_here s h (i ∷ s h);
    add_head_other = λ s i h g free ne. write_list_other s h g (i ∷ s h) ne;
    add_tail_here = λ s i h free. write_list_here s h (s h ++ i ∷ []);
    add_tail_other = λ s i h g free ne. write_list_other s h g (s h ++ i ∷ []) ne;
    del_entries = λ s i h g m. refl;
  }
