-- ===== src/Client/Site.antt =====
-- The array of mounted sites of src/client/site.c. Its memory is NULL only while it is empty, where
-- the tests of the index already fail. The number of an active site is signed, and -1 is none.
pub mod Active
pub mod Remove
mod Tests
use newth.Prelude.{
  ℕ, zero, suc, ◌+◌, ◌-◌, Bool, true, false, ◌&&◌, ◌||◌, Option, none, some, List, [], ◌∷◌, ◌++◌,
  ◌==◌, ltb, leb, if◌then◌else◌, Bytes, equal, length, take, drop, get_elem?,
}
use newth.Prelude.Int.{ℤ, pos, negsuc, eq_ℤ}

-- `enum SiteType`, an `int` that may hold any other number.
abbrev pub site_file : ℕ
site_file = 0

abbrev pub site_http : ℕ
site_http = 1

-- A site: its type, and the bytes of the structure for that type, which `memcmp` compares.
pub record Site : Type 0 where
  pub kind : ℕ
  pub memory : Bytes

pub record SiteArray : Type 0 where
  pub active_read : ℤ
  pub active_write : ℤ
  pub array : List Site

abbrev pub minus_one : ℤ
minus_one = negsuc 0

-- What the setters answer: NULL, or `ErrInvalidSite`.
pub data SetResult : Type 0 where
  set_done err_invalid_site : SetResult

-- `SiteCompare`
unfoldable pub site_compare : Site → Site → Bool
site_compare site1 site2 =
    site1.kind == site2.kind
    && (site1.kind == site_file || site1.kind == site_http)
    && equal site1.memory site2.memory

-- The site at a signed index, or NULL where the index is out of range.
unfoldable pub site_array_get : SiteArray → ℤ → Option Site
site_array_get self (pos id) = get_elem? self.array id
site_array_get self (negsuc n) = none

-- `siteArrayActiveGet`
unfoldable pub site_array_active_get : SiteArray → Option Site
unfolding site_array_get
site_array_active_get self = site_array_get self self.active_read

-- A signed index if it is in range, and else -1.
unfoldable pub in_range_or_minus_one : SiteArray → ℤ → ℤ
in_range_or_minus_one self (pos id) = if ltb id (length self.array) then pos id else minus_one
in_range_or_minus_one self (negsuc n) = minus_one

-- `siteArrayActiveGetNth`
unfoldable pub site_array_active_get_nth : SiteArray → ℤ
unfolding in_range_or_minus_one
site_array_active_get_nth self = in_range_or_minus_one self self.active_read

-- `siteArrayActiveGetWrite`
unfoldable pub site_array_active_get_write : SiteArray → Option Site
unfolding site_array_get
site_array_active_get_write self = site_array_get self self.active_write

-- `siteArrayActiveGetWriteNth`
unfoldable pub site_array_active_get_write_nth : SiteArray → ℤ
unfolding in_range_or_minus_one
site_array_active_get_write_nth self = in_range_or_minus_one self self.active_write

-- `siteNumber >= self->len`; a negative number passes.
unfoldable pub too_large : SiteArray → ℤ → Bool
too_large self (pos n) = leb (length self.array) n
too_large self (negsuc n) = false

-- `siteArrayActiveSetNth`
unfoldable pub site_array_active_set_nth : SiteArray → ℤ → SiteArray × SetResult
unfolding too_large
site_array_active_set_nth self n =
    if too_large self n
    then (self, err_invalid_site)
    else (record self { active_read = n }, set_done)

-- `siteArrayActiveSetWriteNth`
unfoldable pub site_array_active_set_write_nth : SiteArray → ℤ → SiteArray × SetResult
unfolding too_large
site_array_active_set_write_nth self n =
    if too_large self n
    then (self, err_invalid_site)
    else (record self { active_write = n }, set_done)

-- The loop of `siteArrayActiveSet` and `siteArrayRemove`: the first site that is the same.
unfoldable pub first_same : Site → List Site → ℕ → Option ℕ
unfolding site_compare
first_same site [] i = none
first_same site (s ∷ sites) i =
    let rest = first_same site sites (suc i) in if site_compare s site then some i else rest

-- `siteArrayActiveSet`
unfoldable pub site_array_active_set : SiteArray → Site → SiteArray
unfolding first_same site_array_active_set_nth
site_array_active_set self site = elim (first_same site self.array 0) [
  | none ↦ self
  | some i ↦ (site_array_active_set_nth self (pos i)).0
]

-- `siteArrayActiveSetWrite`, whose body is that of `siteArrayActiveSet`.
unfoldable pub site_array_active_set_write : SiteArray → Site → SiteArray
unfolding first_same site_array_active_set_nth
site_array_active_set_write self site = elim (first_same site self.array 0) [
  | none ↦ self
  | some i ↦ (site_array_active_set_nth self (pos i)).0
]

-- `siteArrayNthMounted`
unfoldable pub site_array_nth_mounted : SiteArray → ℤ → Bool
site_array_nth_mounted self (pos n) = ltb n (length self.array)
site_array_nth_mounted self (negsuc n) = false

-- `siteArrayAdd`
unfoldable pub site_array_add : SiteArray → Site → SiteArray
site_array_add self site = record self { array = self.array ++ (site ∷ []) }

abbrev pub unless_removed : ℤ → ℤ → ℤ
unless_removed n active = if eq_ℤ active n then minus_one else active

-- `siteArrayRemoveNth`. The move for a negative index leaves the array: `none`.
unfoldable pub site_array_remove_nth : SiteArray → ℤ → Option SiteArray
unfolding eq_ℤ
site_array_remove_nth self (negsuc n) = none
site_array_remove_nth self (pos n) = some (record {
  active_read = unless_removed (pos n) self.active_read;
  active_write = unless_removed (pos n) self.active_write;
  array =
      if ltb n (length self.array)
      then take n self.array ++ drop (suc n) self.array
      else self.array;
})

-- `siteArrayRemove`
unfoldable pub site_array_remove : SiteArray → Site → Option SiteArray
unfolding first_same site_array_remove_nth
site_array_remove self site = elim (first_same site self.array 0) [
  | none ↦ some self
  | some i ↦ site_array_remove_nth self (pos i)
]

-- `siteArrayPtr`: the number of sites, and the sites.
unfoldable pub site_array_ptr : SiteArray → ℕ × List Site
site_array_ptr self = (length self.array, self.array)
