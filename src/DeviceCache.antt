-- ===== src/DeviceCache.antt =====
-- `retrieve_dim_from_DB` of HandleDB.c and its cache of queries, one call at a time: the cache is
-- read and written by calls that do not overlap.
pub mod Query
pub mod Entries
pub mod Transparency
pub mod Names
use image_app.Common.{
  ℕ, zero, suc, ◌+◌, ◌%◌, ◌^◌, ◌≡◌, refl, Bool, true, false, Option, none, some, List, [], ◌∷◌,
  ◌++◌, Bytes, codes, Outcome, ok, fault, ◌>>=◌, load, store, ltb, if◌then◌else◌, length, replicate,
  ℤ, pos,
}
use image_app.CString.{contains}
use image_app.ParseInt.{parse_int}
use image_app.Strings.CacheName.{Floats, build_image_name_cache}
use image_app.Request.Accept.{Quality, ImageNode}
use image_app.Request.Parse.{Request}

-- `enum DB_stat`.
pub data DbStat : Type 0 where
  no_value_in_db value_db : DbStat

-- What is known of a device: all 0 if the database has no row for it.
pub record Display : Type 0 where
  pub colors : ℤ
  pub width : ℤ
  pub height : ℤ

abbrev pub no_display : Display
no_display = record { colors = pos 0; width = pos 0; height = pos 0 }

-- `struct cache_query`, less its member q, which is never used.
pub record CacheQuery : Type 0 where
  pub query : Bytes
  pub state : DbStat
  pub display : Display

-- The static array, and `idx_cache`, an unsigned long long.
pub record DeviceCache : Type 0 where
  pub entries : List CacheQuery
  pub idx_cache : ℕ

abbrev empty_query : CacheQuery
empty_query = record { query = []; state = no_value_in_db; display = no_display }

unfoldable pub empty_cache : DeviceCache
empty_cache = record { entries = replicate 256 empty_query; idx_cache = 0 }

abbrev pub select : Bytes
select = codes "SELECT * FROM device WHERE useragent LIKE "

-- The text that sprintf makes of a user agent. 39 is the quotation mark.
unfoldable pub query_of : Bytes → Bytes
query_of user_agent = select ++ 39 ∷ (user_agent ++ 37 ∷ 39 ∷ 59 ∷ [])

-- `char tmp_query[128]`. It stays without a value for an empty user agent, and is read all the same.
pub build_query : Bytes → Outcome Bytes
unfolding query_of
build_query [] = fault
build_query (c ∷ user_agent) =
    let query = query_of (c ∷ user_agent) in if ltb (length query) 128 then ok query else fault

-- The loop over the cache: the first entry whose query contains the one that is sought. An array is
-- never NULL, so the entries without a query take part.
unfoldable pub find_query : List CacheQuery → Bytes → Option CacheQuery
find_query [] tmp_query = none
find_query (e ∷ es) tmp_query =
    let rest = find_query es tmp_query in if contains e.query tmp_query then some e else rest

-- The rows that mysql_fetch_row gives for a query, as the strings of their columns.
abbrev pub Database : Type 0
Database = Bytes → Outcome (Option (List Bytes))

unfoldable pub fetch : Database → Bytes → Outcome (DbStat × Display)
fetch db tmp_query = db tmp_query >>= λ answer. elim answer [
  | none ↦ ok (no_value_in_db, no_display)
  | some row ↦ do
    colors ← load row 7
    width ← load row 3
    height ← load row 2
    ok (
      value_db,
      record { colors = parse_int colors; width = parse_int width; height = parse_int height },
    )
]

-- Both blocks that write to the cache: a query is shorter than the 256 bytes of its member.
insert : DeviceCache → Bytes → DbStat → Display → Outcome DeviceCache
insert c tmp_query state display = do
  entries ←
      store c.entries (c.idx_cache % 256)
        (record { query = tmp_query; state = state; display = display })
  ok (record { entries = entries; idx_cache = (c.idx_cache + 1) % 2 ^ 64 })

-- `Q` and `F` are what two parts of the program use of the one C type float.
module _ (Q : Quality) (F : Floats) (as_float : Q.Float → F.Float) where
  head_quality : Option (List (ImageNode Q)) → Outcome F.Float
  head_quality none = fault
  head_quality (some []) = fault
  head_quality (some (n ∷ ns)) = ok (as_float n.q)

  string_of : Option Bytes → Outcome Bytes
  string_of none = fault
  string_of (some s) = ok s

  -- The assignments to the request that all four branches make.
  pub set_display : Request Q → Display → Outcome (Request Q)
  set_display r d = do
    name ← string_of r.image_name
    q ← head_quality r.image_list
    cache_name ← build_image_name_cache F name q d.width d.height d.colors
    ok (record r {
      colors = d.colors;
      width = d.width;
      height = d.height;
      cache_name = some cache_name;
    })

  -- The tail of the function, on the entry the loop stops at.
  answer :
      Database
      → DeviceCache
      → Request Q
      → Bytes
      → Option CacheQuery
      → Outcome (DeviceCache × Request Q)
  answer db c request tmp_query none = do
    (state, display) ← fetch db tmp_query
    request ← set_display request display
    c ← insert c tmp_query state display
    ok (c, request)
  answer db c request tmp_query (some e) = elim e.state [
    | no_value_in_db ↦ do request ← set_display request no_display; ok (c, request)
    | value_db ↦ do request ← set_display request e.display; ok (c, request)
  ]

  unfoldable pub retrieve_dim_from_db :
      Database → DeviceCache → Request Q → Outcome (DeviceCache × Request Q)
  unfolding string_of build_query answer set_display head_quality insert
  retrieve_dim_from_db db c request = do
    user_agent ← string_of request.user_agent
    tmp_query ← build_query user_agent
    answer db c request tmp_query (find_query c.entries tmp_query)
