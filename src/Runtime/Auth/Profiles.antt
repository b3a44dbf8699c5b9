-- ===== src/Runtime/Auth/Profiles.antt =====
-- Storing and deleting provider profiles.
use liz.Prelude.{
  ℕ, String, ◌≡◌, ◌≢◌, refl, true, false, not, Option, none, some, List, [], ◌∷◌, ◌==◌, arith,
  eq_iff, if◌then◌else◌, length, retain, length-retain, ◌<◌, sort_by, insert_sorted,
}
use liz.Text.{text_le}
use liz.Text.Order.{text_le_total}
use liz.Protocol.Auth.{ProviderAuthProfile}
use liz.Runtime.Error.{RuntimeError, ok, err, is_ok}
use liz.Runtime.State.{RuntimeCoordinator}
use liz.Runtime.Stores.{read_auth_profiles, write_auth_profiles, profiles_of}
use liz.Runtime.Auth.{
  validate_provider_auth_profile, put_profile, by_profile_id, upsert_provider_auth_profile,
  profile_not_found, without_profile, delete_provider_auth_profile,
}

-- The first profile with an id.
unfoldable pub find_profile : String → List ProviderAuthProfile → Option ProviderAuthProfile
find_profile id [] = none
find_profile id (profile ∷ profiles) =
    let later = find_profile id profiles in if profile.profile_id == id then some profile else later

text_le_refl : (a b : String) → a ≡ b → text_le a b ≡ true
text_le_refl a b e = ground (arith, text_le_total a a, text_le_total a b, eq_iff a b)

find_profile-insert_sorted :
    (j : String) (p : ProviderAuthProfile) (ps : List ProviderAuthProfile)
    → find_profile j (insert_sorted by_profile_id p ps) ≡ find_profile j (p ∷ ps)
unfolding find_profile insert_sorted
find_profile-insert_sorted j p [] = refl
find_profile-insert_sorted j p (q ∷ ps) = ground (
  arith,
  find_profile-insert_sorted j p ps,
  eq_iff p.profile_id j,
  eq_iff q.profile_id j,
  text_le_refl p.profile_id q.profile_id,
)

find_profile-sort_by :
    (j : String) (ps : List ProviderAuthProfile)
    → find_profile j (sort_by by_profile_id ps) ≡ find_profile j ps
unfolding find_profile sort_by
find_profile-sort_by j [] = refl
find_profile-sort_by j (p ∷ ps) =
    ground
      (arith, find_profile-sort_by j ps, find_profile-insert_sorted j p (sort_by by_profile_id ps))

find_profile-put_profile :
    (p : ProviderAuthProfile) (j : String) (ps : List ProviderAuthProfile)
    → find_profile j (put_profile p ps) ≡ (if p.profile_id == j then some p else find_profile j ps)
unfolding find_profile put_profile
find_profile-put_profile p j [] = refl
find_profile-put_profile p j (q ∷ ps) = ground (
  arith,
  find_profile-put_profile p j ps,
  eq_iff p.profile_id j,
  eq_iff q.profile_id j,
  eq_iff q.profile_id p.profile_id,
)

-- Storing a profile succeeds only if it passes the validation, and then the profile is found under
-- its id and every other id finds what it found; when it fails, the files stay as they were, where a
-- write of the store that fails changes nothing. With a file system that answers, it fails only where the validation does, with the
-- error of that.
pub upsert_provider_auth_profile_lem :
    (profile : ProviderAuthProfile) (s : RuntimeCoordinator)
    → let (result, after) = upsert_provider_auth_profile profile s in
      let old = (profiles_of s.stores.paths).profiles in
      let new = (profiles_of after.stores.paths).profiles in
      (is_ok result ≡ true
        → (result ≡ ok profile)
          × (validate_provider_auth_profile profile ≡ none)
          × (find_profile profile.profile_id new ≡ some profile)
          × ((j : String) → j ≢ profile.profile_id → find_profile j new ≡ find_profile j old))
      × (is_ok result ≡ false → after.stores.paths ≡ s.stores.paths)
      × (((n : ℕ) → s.stores.faulty n ≡ false)
          → (validate_provider_auth_profile profile ≡ none → is_ok result ≡ true)
            × ((e : RuntimeError)
                → validate_provider_auth_profile profile ≡ some e
                → result ≡ err e))
unfolding upsert_provider_auth_profile read_auth_profiles write_auth_profiles profiles_of
upsert_provider_auth_profile_lem profile s = grind (
  arith,
  find_profile-sort_by,
  find_profile-put_profile,
  λ (j : String). eq_iff profile.profile_id j,
)

find_profile-without :
    (id j : String) (ps : List ProviderAuthProfile)
    → find_profile j (without_profile id ps) ≡ (if id == j then none else find_profile j ps)
unfolding without_profile find_profile retain
find_profile-without id j [] = ground arith
find_profile-without id j (p ∷ ps) = ground (
  arith,
  find_profile-without id j ps,
  eq_iff p.profile_id id,
  eq_iff p.profile_id j,
  eq_iff id j,
)

length-without_profile :
    (id : String) (ps : List ProviderAuthProfile)
    → (find_profile id ps ≡ none → length (without_profile id ps) ≡ length ps)
      × (find_profile id ps ≢ none → length (without_profile id ps) < length ps)
unfolding without_profile find_profile retain
length-without_profile id [] = ground arith
length-without_profile id (p ∷ ps) = ground (
  arith,
  length-without_profile id ps,
  length-retain (λ (q : ProviderAuthProfile). not (q.profile_id == id)) ps,
)

-- With a file system that answers, deleting a profile that is not found is refused and changes no
-- file; else the profile is found no more and every other id finds what it found.
pub delete_provider_auth_profile_lem :
    (id : String) (s : RuntimeCoordinator)
    → ((n : ℕ) → s.stores.faulty n ≡ false)
    → let (result, after) = delete_provider_auth_profile id s in
      let old = (profiles_of s.stores.paths).profiles in
      let new = (profiles_of after.stores.paths).profiles in
      (find_profile id old ≡ none
        → (result ≡ err (profile_not_found id)) × (after.stores.paths ≡ s.stores.paths))
      × (find_profile id old ≢ none
          → (result ≡ ok id)
            × (find_profile id new ≡ none)
            × ((j : String) → j ≢ id → find_profile j new ≡ find_profile j old))
unfolding delete_provider_auth_profile read_auth_profiles write_auth_profiles profiles_of
delete_provider_auth_profile_lem id s calm =
    let old = (profiles_of s.stores.paths).profiles in
    grind (
      arith,
      length-without_profile id old,
      λ (j : String). find_profile-without id j old,
      λ (j : String). eq_iff id j,
    )
