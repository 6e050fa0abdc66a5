-- ===== src/Kmap/Check/Split.antt =====
-- The first loop of `check_page_list`: two lists from one, in place.
use cezos.Base.{
  ℕ, zero, suc, ◌≤◌, ltb, ◌≡◌, refl, ap, sym, ◌∙◌, true, false, not, Bool-cases, inl, inr, Option,
  none, some, List, [], ◌∷◌, ◌++◌, length, arith,
}
use cezos.Kmap.State.{Kernel, PageStatus}
use cezos.Kmap.Check.{
  Place, at_ps1, at_ps2, at_link, Lists, assign, is_high, close_lists, split_list,
}
use cezos.Kmap.Check.Places.{
  low, high, Links, Distinct, read, same_place, on, read-assign, read-assign_other, refs-assign,
  kernel-assign, other_link, link_other, on_rest, Links-assign, is_high_lem,
}

-- What the loop from the state `st` and the places `tp0` and `tp1` on leaves.
pub record Done (xs : List ℕ) (tp0 tp1 : Place) (st t : Lists) : Type 0 where
  pub highs : Links t.kernel.pages (read tp1 t) (high xs)
  pub lows :
      (ys : List ℕ)
      → Links t.kernel.pages t.ps2 ys
      → Links t.kernel.pages (read tp0 t) (low xs ++ ys)
  pub kept :
      (q : Place)
      → same_place q tp0 ≡ false
      → same_place q tp1 ≡ false
      → on q xs ≡ false
      → read q t ≡ read q st
  pub refs : (p : ℕ) → (t.kernel.pages p).refs ≡ (st.kernel.pages p).refs
  pub rest : t.kernel ≡ record st.kernel { pages = t.kernel.pages }

rest_trans :
    (st u t : Lists)
    → t.kernel ≡ record u.kernel { pages = t.kernel.pages }
    → u.kernel ≡ record st.kernel { pages = u.kernel.pages }
    → t.kernel ≡ record st.kernel { pages = t.kernel.pages }
rest_trans st u t e e' = e ∙ ap (λ (k : Kernel). record k { pages = t.kernel.pages }) e'

Links-head :
    (ys : List ℕ) (pages : ℕ → PageStatus) (head head' : Option ℕ)
    → head ≡ head'
    → Links pages head' ys
    → Links pages head ys
Links-head ys pages head head' e h = rw e h

ps2-assign : (tp : Place) (c : Lists) → (assign tp c.ps2 c).ps2 ≡ c.ps2
unfolding assign
ps2-assign at_ps1 c = refl
ps2-assign at_ps2 c = refl
ps2-assign (at_link p) c = refl

Done-nil :
    (tp0 tp1 : Place) (st : Lists)
    → same_place tp0 tp1 ≡ false
    → same_place tp1 tp0 ≡ false
    → Done [] tp0 tp1 st (close_lists tp0 tp1 st)
unfolding close_lists
Done-nil tp0 tp1 st ne ne' =
    let cut = assign tp1 none st in
    record {
      highs = read-assign_other tp1 tp0 cut.ps2 cut ne' ∙ read-assign tp1 none st;
      lows = λ ys h.
          Links-head ys (close_lists tp0 tp1 st).kernel.pages _ _
            (read-assign tp0 cut.ps2 cut ∙ sym (ps2-assign tp0 cut)) h;
      kept = λ q n0 n1 out.
          read-assign_other q tp0 cut.ps2 cut n0 ∙ read-assign_other q tp1 none st n1;
      refs = λ p. refs-assign tp0 cut.ps2 cut p ∙ refs-assign tp1 none st p;
      rest =
          rest_trans st cut (close_lists tp0 tp1 st) (kernel-assign tp0 cut.ps2 cut)
            (kernel-assign tp1 none st);
    }

Done-low :
    (p : ℕ) (xs : List ℕ) (tp0 tp1 : Place) (st t : Lists)
    → ltb p 1024 ≡ true
    → same_place tp0 tp1 ≡ false
    → on tp0 (p ∷ xs) ≡ false
    → Done xs (at_link p) tp1 (assign tp0 (some p) st) t
    → Done (p ∷ xs) tp0 tp1 st t
Done-low p xs tp0 tp1 st t test ne out d = record {
  highs = rw test d.highs;
  lows = λ ys h. rw test (
    d.kept tp0 (link_other p tp0 xs out) ne (on_rest p tp0 xs out) ∙ read-assign tp0 (some p) st,
    d.lows ys h,
  );
  kept = λ q n0 n1 off.
      d.kept q (link_other p q xs off) n1 (on_rest p q xs off)
      ∙ read-assign_other q tp0 (some p) st n0;
  refs = λ q. d.refs q ∙ refs-assign tp0 (some p) st q;
  rest = rest_trans st (assign tp0 (some p) st) t d.rest (kernel-assign tp0 (some p) st);
}

Done-high :
    (p : ℕ) (xs : List ℕ) (tp0 tp1 : Place) (st t : Lists)
    → ltb p 1024 ≡ false
    → same_place tp1 tp0 ≡ false
    → on tp1 (p ∷ xs) ≡ false
    → Done xs tp0 (at_link p) (assign tp1 (some p) st) t
    → Done (p ∷ xs) tp0 tp1 st t
Done-high p xs tp0 tp1 st t test ne out d = record {
  highs = rw test (
    d.kept tp1 ne (link_other p tp1 xs out) (on_rest p tp1 xs out) ∙ read-assign tp1 (some p) st,
    d.highs,
  );
  lows = λ ys h. rw test (d.lows ys h);
  kept = λ q n0 n1 off.
      d.kept q n0 (link_other p q xs off) (on_rest p q xs off)
      ∙ read-assign_other q tp1 (some p) st n1;
  refs = λ q. d.refs q ∙ refs-assign tp1 (some p) st q;
  rest = rest_trans st (assign tp1 (some p) st) t d.rest (kernel-assign tp1 (some p) st);
}

-- The next page of the list, after a write to another place.
next_page :
    (p : ℕ) (xs : List ℕ) (tp : Place) (v : Option ℕ) (st : Lists)
    → on tp (p ∷ xs) ≡ false
    → Links st.kernel.pages (st.kernel.pages p).next_free xs
    → Links (assign tp v st).kernel.pages ((assign tp v st).kernel.pages p).next_free xs
next_page p xs tp v st out h =
    Links-head xs (assign tp v st).kernel.pages _ _
      (read-assign_other (at_link p) tp v st (other_link p tp xs out))
      (Links-assign xs (st.kernel.pages p).next_free tp v st (on_rest p tp xs out) h)

-- On fuel for its pages the loop ends, from any two places that are apart and not links of the list.
pub split_list-Done :
    (xs : List ℕ) (fuel : ℕ) (head : Option ℕ) (tp0 tp1 : Place) (st : Lists)
    → length xs ≤ fuel
    → Distinct xs
    → Links st.kernel.pages head xs
    → same_place tp0 tp1 ≡ false
    → same_place tp1 tp0 ≡ false
    → on tp0 xs ≡ false
    → on tp1 xs ≡ false
    → (t : Lists) × (split_list 1 fuel head tp0 tp1 st ≡ some t) × Done xs tp0 tp1 st t
unfolding split_list
split_list-Done [] fuel head tp0 tp1 st enough ds h ne ne' out0 out1 =
    (close_lists tp0 tp1 st, rw h refl, Done-nil tp0 tp1 st ne ne')
split_list-Done (p ∷ xs) zero head tp0 tp1 st enough ds h ne ne' out0 out1 = absurd (omega arith)
split_list-Done (p ∷ xs) (suc fuel) head tp0 tp1 st enough (new, small, ds) (e, h) ne ne' out0
      out1 =
    elim (Bool-cases (ltb p 1024)) [
      | inl is_low ↦
          let test : is_high 1 p ≡ false = is_high_lem p small ∙ ap not is_low in
          let (t, run, d) =
            split_list-Done xs fuel _ (at_link p) tp1 (assign tp0 (some p) st) (omega arith) ds
              (next_page p xs tp0 (some p) st out0 h) (other_link p tp1 xs out1)
              (link_other p tp1 xs out1) new (on_rest p tp1 xs out1) in
          (t, rw (e, split_list, test) run, Done-low p xs tp0 tp1 st t is_low ne out0 d)
      | inr above ↦
          let test : is_high 1 p ≡ true = is_high_lem p small ∙ ap not above in
          let (t, run, d) =
            split_list-Done xs fuel _ tp0 (at_link p) (assign tp1 (some p) st) (omega arith) ds
              (next_page p xs tp1 (some p) st out1 h) (link_other p tp0 xs out0)
              (other_link p tp0 xs out0) (on_rest p tp0 xs out0) new in
          (t, rw (e, split_list, test) run, Done-high p xs tp0 tp1 st t above ne' out1 d)
    ]
