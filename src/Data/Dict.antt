-- ===== src/Data/Dict.antt =====
-- std::map< std::string, concat > as a list in the order of its keys: `find`, `try_emplace`, and
-- the step that the program takes next at the member that `try_emplace` gives.
pub mod Laws
use config.Common.{
  Text, text_compare, text_compare_trans, Ordering, ◌≡◌, Bool, true, false, Option, none, some,
  Result, ok, ◌>>=◌, if◌then◌else◌, text_eq,
}
use config.Data.{Concat, Members, no_member, member}

unfoldable pub find : Text → Members → Option Concat
find k no_member = none
find k (member j c ms) = if text_eq k j then some c else find k ms

-- How the key stands to that of a member: `later` is the result for the members behind it.
abbrev pub upsert_at :
    Ordering
    → Text
    → Concat
    → (Bool → Concat → Result Concat)
    → Text
    → Concat
    → Members
    → Result Members
    → Result Members
upsert_at Ordering.lt k d step j c ms later = do c' ← step true d; ok (member k c' (member j c ms))
upsert_at Ordering.eq k d step j c ms later = do c' ← step false c; ok (member j c' ms)
upsert_at Ordering.gt k d step j c ms later = do ms' ← later; ok (member j c ms')

-- `try_emplace( k, d )`, and then `step inserted` at the member of key `k`.
unfoldable pub upsert : Text → Concat → (Bool → Concat → Result Concat) → Members → Result Members
upsert k d step no_member = do c ← step true d; ok (member k c no_member)
upsert k d step (member j c ms) = upsert_at (text_compare k j) k d step j c ms (upsert k d step ms)

-- The key comes before every key of the map.
abbrev pub Below : Text → Members → Type 0
Below k no_member = Unit {0}
Below k (member j c ms) = (text_compare k j ≡ Ordering.lt) × Below k ms

-- The keys of one map stand in strictly rising order.
abbrev pub IsOrdered : Members → Type 0
IsOrdered no_member = Unit {0}
IsOrdered (member k c ms) = Below k ms × IsOrdered ms

pub Below-trans :
    (j k : Text) (ms : Members) → text_compare j k ≡ Ordering.lt → Below k ms → Below j ms
Below-trans j k no_member h b = tt
Below-trans j k (member i c ms) h b = (text_compare_trans j k i h b.0, Below-trans j k ms h b.1)
