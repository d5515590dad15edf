-- ===== src/Client/Site/Remove.antt =====
-- What `siteArrayRemoveNth` leaves.
use newth.Prelude.{
  ℕ, zero, suc, ◌<◌, ◌≡◌, refl, ap, ◌∙◌, inl, inr, true, Bool-cases, Option, none, some, List, [],
  ◌∷◌, ◌++◌, arith, length, take, drop, get_elem?, ltb, if◌then◌else◌, ◌==◌,
}
use mathlib.Core.Option
use newth.Prelude.Int.{pos, eq_ℤ}
use newth.Client.Site.{
  Site, SiteArray, unless_removed, site_array_get, site_array_active_get, site_array_remove_nth,
}

get_elem?-removed :
    (sites : List Site) (n i : ℕ)
    → n < length sites
    → get_elem? (take n sites ++ drop (suc n) sites) i
      ≡ (if ltb i n then get_elem? sites i else get_elem? sites (suc i))
get_elem?-removed [] n i h = absurd (omega arith)
get_elem?-removed (s ∷ sites) zero i h = ground arith
get_elem?-removed (s ∷ sites) (suc n) zero h = ground arith
get_elem?-removed (s ∷ sites) (suc n) (suc i) h =
    get_elem?-removed sites n i (omega arith) ∙ ground arith

-- The active site after a removal, by where its number `k` stands to the removed number `n`.
abbrev pub active_after : SiteArray → ℕ → ℕ → Option Site
active_after self n k =
    if k == n
    then none
    else if ltb k n
    then site_array_get self (pos k)
    else site_array_get self (pos (suc k))

get-unless_removed :
    (self : SiteArray) (n k : ℕ)
    → site_array_get self (unless_removed (pos n) (pos k))
      ≡ (if k == n then none else site_array_get self (pos k))
unfolding eq_ℤ site_array_get
get-unless_removed self n k = elim (Bool-cases (k == n)) [
  | inl same ↦ rw same refl
  | inr other ↦ rw other refl
]

-- Removing a mounted site `n` succeeds: the sites before it keep their numbers and those behind it move
-- down by one. An active site `n` is active no more and one before `n` stays active; of one behind `n`
-- only the number stays, so that the site after it becomes the active one, or none if it was the last.
pub site_array_remove_nth_lem :
    (self : SiteArray) (n k i : ℕ)
    → n < length self.array
    → self.active_read ≡ pos k
    → let after = site_array_remove_nth self (pos n) in
      (Option.map (λ a. site_array_get a (pos i)) after
        ≡ some (if ltb i n then site_array_get self (pos i) else site_array_get self (pos (suc i))))
      × (Option.map site_array_active_get after ≡ some (active_after self n k))
unfolding site_array_remove_nth site_array_active_get site_array_get eq_ℤ
site_array_remove_nth_lem self n k i h e =
    let inside : ltb n (length self.array) ≡ true = ground (arith, h) in
    let after : SiteArray = record self { array = take n self.array ++ drop (suc n) self.array } in
    let moved : (j : ℕ)
        → site_array_get after (pos j)
          ≡ (if ltb j n then site_array_get self (pos j) else site_array_get self (pos (suc j))) =
      λ j. get_elem?-removed self.array n j h in
    let active : site_array_get after (unless_removed (pos n) (pos k)) ≡ active_after self n k =
      get-unless_removed after n k ∙ rw (moved k) in
    (rw inside (ap some (moved i)), rw (inside, e) (ap some active))
