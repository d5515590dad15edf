-- ===== src/Client/Site/Tests.antt =====
-- Runs of the site array, and its theorems at concrete inputs.
use mathlib.Core.Option
use newth.Prelude.{
  zero, suc, ◌≡◌, refl, true, false, some, [], ◌∷◌, codes, arith, ltb, if◌then◌else◌, ◌==◌, ◌||◌,
  length, equal,
}
use newth.Prelude.Int.{ℤ, pos}
use newth.Client.Site.{
  Site, SiteArray, site_compare, site_array_get, site_array_active_get, site_array_active_get_nth,
  site_array_active_get_write, site_array_active_get_write_nth, site_array_active_set,
  site_array_active_set_write, site_array_add, site_array_nth_mounted, site_array_remove_nth,
  site_array_remove,
}
use newth.Client.Site.Active.{
  NoneBefore, site_array_get-active_get_nth, site_array_active_set_lem, site_array_get-add,
}
use newth.Client.Site.Remove.{active_after, site_array_remove_nth_lem}

abbrev files : Site
files = record { kind = 0; memory = codes "/home" }

abbrev remote : Site
remote = record { kind = 1; memory = codes "a.b" }

abbrev other : Site
other = record { kind = 1; memory = codes "c.d" }

abbrev mounted : SiteArray
mounted = record { active_read = pos 1; active_write = pos 0; array = files ∷ remote ∷ other ∷ [] }

-- Without site 0, the active number 1 means the next site.
removed :
    site_array_remove mounted files
    ≡ some (record { active_read = pos 1; active_write = ℤ.negsuc 0; array = remote ∷ other ∷ [] })
unfolding site_array_remove equal
removed = refl

mounted_active :
    (site_array_get mounted (site_array_active_get_nth mounted) ≡ site_array_active_get mounted)
    × (site_array_get mounted (site_array_active_get_write_nth mounted)
        ≡ site_array_active_get_write mounted)
mounted_active = site_array_get-active_get_nth mounted

different : site_compare files remote ≡ false
unfolding site_compare
different = refl

same : site_compare remote remote ≡ true
unfolding site_compare equal
same = refl

before_remote : NoneBefore remote mounted.array 1
before_remote zero t l e = cc (different, e)
before_remote (suc j) t l e = absurd (omega arith)

site_array_active_set_lem_example :
    (site_array_active_set mounted remote ≡ record mounted { active_read = pos 1 })
    × (site_array_active_set_write mounted remote ≡ record mounted { active_read = pos 1 })
    × (site_array_active_get (site_array_active_set mounted remote) ≡ some remote)
site_array_active_set_lem_example =
    site_array_active_set_lem mounted remote remote 1 refl same before_remote

added_site :
    let added = site_array_add mounted other in
    (site_array_get added (pos 3)
      ≡ (if 3 == length mounted.array then some other else site_array_get mounted (pos 3)))
    × (site_array_nth_mounted added (pos 3)
        ≡ (3 == length mounted.array || site_array_nth_mounted mounted (pos 3)))
added_site = site_array_get-add mounted other 3

site_array_remove_nth_lem_example :
    let after = site_array_remove_nth mounted (pos 0) in
    (Option.map (λ a. site_array_get a (pos 0)) after
      ≡ some (if ltb 0 0 then site_array_get mounted (pos 0) else site_array_get mounted (pos 1)))
    × (Option.map site_array_active_get after ≡ some (active_after mounted 0 1))
site_array_remove_nth_lem_example = site_array_remove_nth_lem mounted 0 1 0 (omega arith) refl
