-- ===== src/Client/Site/Active.antt =====
-- Which site the active numbers of the array mean.
use newth.Prelude.{
  ℕ, zero, suc, ◌+◌, ◌≤◌, ◌<◌, ◌≡◌, refl, sym, ap, ◌∙◌, inl, inr, true, false, Bool-cases, none,
  some, List, [], ◌∷◌, ◌++◌, arith, length, length-append, get_elem?, leb, ltb, if◌then◌else◌, ◌==◌,
  ◌||◌,
}
use newth.Prelude.Int.{ℤ, pos, negsuc}
use newth.Client.Site.{
  Site, SiteArray, set_done, site_compare, first_same, too_large, in_range_or_minus_one,
  site_array_get, site_array_active_get, site_array_active_get_nth, site_array_active_get_write,
  site_array_active_get_write_nth, site_array_active_set_nth, site_array_active_set,
  site_array_active_set_write, site_array_add, site_array_nth_mounted,
}

get_elem?-none : (sites : List Site) (i : ℕ) → length sites ≤ i → get_elem? sites i ≡ none
get_elem?-none [] i h = refl
get_elem?-none (s ∷ sites) zero h = absurd (omega arith)
get_elem?-none (s ∷ sites) (suc i) h = get_elem?-none sites i (omega arith)

get-in_range :
    (self : SiteArray) (n : ℤ)
    → site_array_get self (in_range_or_minus_one self n) ≡ site_array_get self n
unfolding in_range_or_minus_one site_array_get
get-in_range self (pos n) = elim (Bool-cases (ltb n (length self.array))) [
  | inl here ↦ rw here refl
  | inr beyond ↦
      rw (beyond, site_array_get) (sym (get_elem?-none self.array n (ground (arith, beyond))))
]
get-in_range self (negsuc n) = refl

-- The site of the number that `siteArrayActiveGetNth` gives is the one that `siteArrayActiveGet` gives,
-- NULL where that number is -1; and so for the site that is written to.
pub site_array_get-active_get_nth :
    (self : SiteArray)
    → (site_array_get self (site_array_active_get_nth self) ≡ site_array_active_get self)
      × (site_array_get self (site_array_active_get_write_nth self)
          ≡ site_array_active_get_write self)
unfolding site_array_active_get site_array_active_get_nth site_array_active_get_write
    site_array_active_get_write_nth
site_array_get-active_get_nth self =
    (get-in_range self self.active_read, get-in_range self self.active_write)

-- No site before index `k` is the same as `site`.
abbrev pub NoneBefore : Site → List Site → ℕ → Type 0
NoneBefore site sites k =
    (j : ℕ) (t : Site) → j < k → get_elem? sites j ≡ some t → site_compare t site ≡ false

first_same_lem :
    (site s : Site) (sites : List Site) (k i : ℕ)
    → get_elem? sites k ≡ some s
    → site_compare s site ≡ true
    → NoneBefore site sites k
    → first_same site sites i ≡ some (i + k)
unfolding first_same
first_same_lem site s [] k i h e before = absurd (cc)
first_same_lem site s (t ∷ sites) zero i h e before =
    let same : site_compare t site ≡ true = cc in rw same (ap some (omega arith))
first_same_lem site s (t ∷ sites) (suc k) i h e before =
    let rest =
      first_same_lem site s sites k (suc i) h e (λ j u l. before (suc j) u (omega arith)) in
    let first : site_compare t site ≡ false = before 0 t (omega arith) refl in
    rw (first, first_same) (rest ∙ ap some (omega arith))

get_elem?-bound :
    (sites : List Site) (k : ℕ) (s : Site) → get_elem? sites k ≡ some s → k < length sites
get_elem?-bound [] k s h = absurd cc
get_elem?-bound (t ∷ sites) zero s h = omega arith
get_elem?-bound (t ∷ sites) (suc k) s h = omega (arith, get_elem?-bound sites k s h)

active_set_nth_inside :
    (self : SiteArray) (k : ℕ)
    → k < length self.array
    → site_array_active_set_nth self (pos k) ≡ (record self { active_read = pos k }, set_done)
unfolding site_array_active_set_nth too_large
active_set_nth_inside self k h =
    let inside : leb (length self.array) k ≡ false = ground (arith, h) in rw inside refl

-- When `s`, at index `k`, is the first site of the array that is the same as `site`, then
-- `siteArrayActiveSet` makes it the site that is read from and changes nothing else;
-- `siteArrayActiveSetWrite` does just that too, and does not touch the site that is written to.
pub site_array_active_set_lem :
    (self : SiteArray) (site s : Site) (k : ℕ)
    → get_elem? self.array k ≡ some s
    → site_compare s site ≡ true
    → NoneBefore site self.array k
    → (site_array_active_set self site ≡ record self { active_read = pos k })
      × (site_array_active_set_write self site ≡ record self { active_read = pos k })
      × (site_array_active_get (site_array_active_set self site) ≡ some s)
unfolding site_array_active_set site_array_active_set_write site_array_active_get site_array_get
site_array_active_set_lem self site s k h e before =
    let found : first_same site self.array 0 ≡ some k =
      first_same_lem site s self.array k 0 h e before ∙ ap some (omega arith) in
    let set : site_array_active_set self site ≡ record self { active_read = pos k } =
      rw (found, site_array_active_set)
        (ap (λ r. r.0) (active_set_nth_inside self k (get_elem?-bound self.array k s h))) in
    (set, set, ap site_array_active_get set ∙ h)

get_elem?-append :
    (sites : List Site) (site : Site) (i : ℕ)
    → get_elem? (sites ++ (site ∷ [])) i
      ≡ (if i == length sites then some site else get_elem? sites i)
get_elem?-append [] site zero = refl
get_elem?-append [] site (suc i) = ground arith
get_elem?-append (s ∷ sites) site zero = ground arith
get_elem?-append (s ∷ sites) site (suc i) = get_elem?-append sites site i ∙ ground arith

-- A site that is added stands at the number that was the count of sites, and is mounted there; the
-- sites before it and the active sites stay.
pub site_array_get-add :
    (self : SiteArray) (site : Site) (i : ℕ)
    → let added = site_array_add self site in
      (site_array_get added (pos i)
        ≡ (if i == length self.array then some site else site_array_get self (pos i)))
      × (site_array_nth_mounted added (pos i)
          ≡ (i == length self.array || site_array_nth_mounted self (pos i)))
unfolding site_array_add site_array_get site_array_nth_mounted
site_array_get-add self site i =
    (get_elem?-append self.array site i, ground (arith, length-append self.array (site ∷ [])))
