-- ===== src/Runtime/Surface/AboutYou.antt =====
-- What liz knows of the owner: the identity facts, listed and changed.
pub mod Profile
use Prim.Native.Char.{Char, code}
use liz.Prelude.{
  String, Bool, true, false, not, ◌&&◌, ◌||◌, Option, none, some, List, [], ◌∷◌, ◌++◌, ◌==◌, map,
  if◌then◌else◌, any, retain, sort_by, dedup, eqb, leb,
}
use liz.Text.{trim, is_empty, join, text_le}
use liz.Text.Split.{split_by, split_whitespace, trim_matches, byte_length}
use liz.Protocol.Ids.{Timestamp, MemoryFactId}
use liz.Protocol.Memory.{MemoryFactKind}
use liz.Protocol.Surface.{AboutYouItem, AboutYouSurface, AboutYouUpdate}
use liz.Storage.{GlobalMemorySnapshot, StoredMemoryFact}
use liz.Runtime.Exec.{Exec, pure, ◌>>=◌, ◌>>◌}
use liz.Runtime.Ids.{now_timestamp, next_memory_fact_id}
use liz.Runtime.Stores.{read_global_memory, write_global_memory}

abbrev pub is_identity : MemoryFactKind → Bool
is_identity MemoryFactKind.identity = true
is_identity _ = false

abbrev pub is_none : {A : Type 0} → Option A → Bool
is_none none = true
is_none (some a) = false

-- The separators of `[':', '_', '-']`.
abbrev is_separator : Char → Bool
is_separator c = eqb (code c) 58 || eqb (code c) 95 || eqb (code c) 45

unfoldable pub humanize_key : String → String
unfolding split_by retain join
humanize_key key = join " " (retain (λ part. not (is_empty part)) (split_by is_separator key))

-- The facts that the surface lists.
abbrev pub is_listed : StoredMemoryFact → Bool
is_listed fact = is_identity fact.kind && is_none fact.invalidated_at && is_none fact.invalidated_by

abbrev pub item_of : StoredMemoryFact → AboutYouItem
item_of fact = record {
  key = fact.subject;
  label = humanize_key fact.subject;
  value = fact.value;
  confirmed = true;
  source_fact_id = some fact.id;
}

abbrev pub summary_items : Option String → List AboutYouItem
summary_items none = []
summary_items (some summary) =
    record {
      key = "identity_summary";
      label = "How liz understands you";
      value = summary;
      confirmed = true;
      source_fact_id = none;
    }
    ∷ []

unfoldable pub about_you_of : GlobalMemorySnapshot → AboutYouSurface
unfolding retain humanize_key
about_you_of snapshot = record {
  identity_summary = snapshot.identity_summary;
  items = summary_items snapshot.identity_summary ++ map item_of (retain is_listed snapshot.facts);
}

unfoldable pub build_about_you_surface : Exec AboutYouSurface
unfolding ◌>>=◌ about_you_of
build_about_you_surface = do snapshot ← read_global_memory; pure (about_you_of snapshot)

unfoldable pub read_about_you_surface : Exec AboutYouSurface
read_about_you_surface = build_about_you_surface

-- A fact of a subject that is not invalidated yet.
abbrev pub is_live_identity : String → StoredMemoryFact → Bool
is_live_identity subject fact =
    is_identity fact.kind && fact.subject == subject && is_none fact.invalidated_at

unfoldable pub invalidate : String → Timestamp → StoredMemoryFact → StoredMemoryFact
invalidate subject now fact =
    if is_live_identity subject fact then record fact { invalidated_at = some now } else fact

-- Unicode's tables, which the standard library brings.
module _ (is_alphanumeric : Char → Bool) (to_lowercase : String → String) where
  unfoldable pub about_you_keywords : String → String → List String
  unfolding split_by split_whitespace trim_matches byte_length retain sort_by dedup
  about_you_keywords subject value =
      let tokens = split_by is_separator subject ++ split_whitespace value in
      let trimmed = map (trim_matches (λ c. not (is_alphanumeric c))) tokens in
      let long = retain (λ token. leb 3 (byte_length token)) trimmed in
      dedup (λ a b. a == b) (sort_by text_le (map to_lowercase long))

  -- The first fact of the subject that is live, with the value.
  unfoldable pub edit_live :
      String → String → Timestamp → List StoredMemoryFact → List StoredMemoryFact
  edit_live subject value now [] = []
  edit_live subject value now (fact ∷ facts) =
      let later = edit_live subject value now facts in
      if is_live_identity subject fact
      then record fact {
        value = value;
        keywords = about_you_keywords subject value;
        updated_at = now;
        invalidated_by = none;
      }
        ∷ facts
      else fact ∷ later

  unfoldable pub identity_fact : String → String → Timestamp → MemoryFactId → StoredMemoryFact
  identity_fact subject value now id = record {
    id = id;
    kind = MemoryFactKind.identity;
    subject = subject;
    value = value;
    keywords = about_you_keywords subject value;
    related_thread_ids = [];
    citations = [];
    updated_at = now;
    invalidated_at = none;
    invalidated_by = none;
  }

  -- The value for a subject that is not blank.
  unfoldable pub put_value :
      String → String → Timestamp → List StoredMemoryFact → Exec (List StoredMemoryFact)
  unfolding ◌>>=◌ edit_live identity_fact any
  put_value subject value now facts =
      if any (is_live_identity subject) facts
      then pure (edit_live subject value now facts)
      else do id ← next_memory_fact_id; pure (facts ++ identity_fact subject value now id ∷ [])

  -- The body of the loop over the items.
  unfoldable pub put_item :
      AboutYouItem → Timestamp → List StoredMemoryFact → Exec (List StoredMemoryFact)
  unfolding put_value invalidate
  put_item item now facts =
      let subject = trim item.key in
      let value = trim item.value in
      if item.key == "identity_summary"
      then pure facts
      else if is_empty subject
      then pure facts
      else if is_empty value
      then pure (map (invalidate subject now) facts)
      else put_value subject value now facts

  unfoldable pub put_items :
      List AboutYouItem → Timestamp → List StoredMemoryFact → Exec (List StoredMemoryFact)
  unfolding ◌>>=◌ put_item
  put_items [] now facts = pure facts
  put_items (item ∷ items) now facts = do
    changed ← put_item item now facts
    put_items items now changed

  unfoldable pub update_about_you_surface : AboutYouUpdate → Exec AboutYouSurface
  unfolding ◌>>=◌ put_items
  update_about_you_surface update = do
    snapshot ← read_global_memory
    now ← now_timestamp
    facts ← put_items update.items now snapshot.facts
    write_global_memory
        (record snapshot { identity_summary = update.identity_summary; facts = facts })
    build_about_you_surface
