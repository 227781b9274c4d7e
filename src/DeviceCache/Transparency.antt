-- ===== src/DeviceCache/Transparency.antt =====
-- The cache of queries never changes what a request is given.
use image_app.Common.{
  store-in, ◌+◌, ◌%◌, ◌^◌, ◌<◌, ◌≤◌, ◌≡◌, refl, ap, ◌∙◌, inl, inr, none, some, Bytes, ok, fault,
  ◌>>=◌, set, length, length-set, arith, Option-cases,
}
use image_app.Strings.CacheName.{Floats}
use image_app.Request.Accept.{Quality}
use image_app.Request.Parse.{Request}
use image_app.DeviceCache.{
  DbStat, no_value_in_db, value_db, Display, no_display, CacheQuery, DeviceCache, Database,
  query_of, build_query, find_query, fetch, insert, set_display, string_of, answer,
  retrieve_dim_from_db,
}
use image_app.DeviceCache.Query.{build_query_fits, build_query_long}
use image_app.DeviceCache.Entries.{
  Plain, IsTrue, answered, Consistent, All-set, found-answered, found-set, fetch-absent,
}

module _ (Q : Quality) (F : Floats) (as_float : Q.Float → F.Float) where
  answer-some :
      (db : Database) (c : DeviceCache) (r : Request Q) (q : Bytes) (e : CacheQuery) (d : Display)
      → (e.state ≡ no_value_in_db → e.display ≡ no_display)
      → e.display ≡ d
      → answer Q F as_float db c r q (some e) ≡ (set_display Q F as_float r d >>= λ r'. ok (c, r'))
  unfolding answer
  answer-some db c r q e d absent same = given e.state refl
    where
      given :
          (s : DbStat)
          → e.state ≡ s
          → answer Q F as_float db c r q (some e)
            ≡ (set_display Q F as_float r d >>= λ r'. ok (c, r'))
      given no_value_in_db h = rw (h, ← same, absent h)
      given value_db h = rw (h, same)

  retrieve-answer :
      (db : Database) (c : DeviceCache) (r : Request Q) (ua : Bytes)
      → r.user_agent ≡ some ua
      → 0 < length ua
      → length ua ≤ 81
      → retrieve_dim_from_db Q F as_float db c r
        ≡ answer Q F as_float db c r (query_of ua) (find_query c.entries (query_of ua))
  unfolding retrieve_dim_from_db
  retrieve-answer db c r ua u some_agent short =
      ap
        (λ o. string_of Q F as_float o >>= λ a.
          build_query a >>= λ q. answer Q F as_float db c r q (find_query c.entries q))
        u
      ∙ unfold string_of in rw (build_query_fits ua some_agent short)

  -- What the function gives where the loop stops at an entry.
  retrieve-found :
      (db : Database) (c : DeviceCache) (r : Request Q) (ua : Bytes) (e : CacheQuery) (d : Display)
      → r.user_agent ≡ some ua
      → 0 < length ua
      → length ua ≤ 81
      → find_query c.entries (query_of ua) ≡ some e
      → (e.state ≡ no_value_in_db → e.display ≡ no_display)
      → e.display ≡ d
      → retrieve_dim_from_db Q F as_float db c r
        ≡ (set_display Q F as_float r d >>= λ r'. ok (c, r'))
  retrieve-found db c r ua e d u some_agent short f absent same =
      retrieve-answer db c r ua u some_agent short
      ∙ ap (answer Q F as_float db c r (query_of ua)) f
      ∙ answer-some db c r (query_of ua) e d absent same

  -- The same with what is true of the entries of a cache.
  retrieve-hit :
      (db db' : Database) (c : DeviceCache) (r : Request Q) (ua : Bytes) (e : CacheQuery)
      (state : DbStat) (d : Display)
      → Consistent db c
      → r.user_agent ≡ some ua
      → Plain ua
      → 0 < length ua
      → length ua ≤ 81
      → fetch db (query_of ua) ≡ ok (state, d)
      → find_query c.entries (query_of ua) ≡ some e
      → retrieve_dim_from_db Q F as_float db' c r
        ≡ (set_display Q F as_float r d >>= λ r'. ok (c, r'))
  retrieve-hit db db' c r ua e state d v u p some_agent short a f =
      let known = found-answered db c.entries ua e v.entries_true p f in
      retrieve-found db' c r ua e d u some_agent short f
        (λ none_there. fetch-absent db (query_of ua) e.display (rw (none_there) at known)) (cc)

  inserted : DeviceCache → Bytes → DbStat → Display → DeviceCache
  inserted c q s d = record {
    entries = set c.entries (c.idx_cache % 256) (record { query = q; state = s; display = d });
    idx_cache = (c.idx_cache + 1) % 2 ^ 64;
  }

  retrieve-miss :
      (db : Database) (c : DeviceCache) (r : Request Q) (ua : Bytes) (state : DbStat) (d : Display)
      → length c.entries ≡ 256
      → r.user_agent ≡ some ua
      → 0 < length ua
      → length ua ≤ 81
      → fetch db (query_of ua) ≡ ok (state, d)
      → find_query c.entries (query_of ua) ≡ none
      → retrieve_dim_from_db Q F as_float db c r
        ≡ (set_display Q F as_float r d >>= λ r'. ok (inserted c (query_of ua) state d, r'))
  unfolding answer insert inserted
  retrieve-miss db c r ua state d size u some_agent short a f =
      retrieve-answer db c r ua u some_agent short
      ∙ ap (answer Q F as_float db c r (query_of ua)) f
      ∙ rw (
        a,
        store-in c.entries (c.idx_cache % 256)
            (record { query = query_of ua; state = state; display = d }) (omega arith),
      )

  inserted-Consistent :
      (db : Database) (c : DeviceCache) (ua : Bytes) (state : DbStat) (d : Display)
      → Consistent db c
      → Plain ua
      → fetch db (query_of ua) ≡ ok (state, d)
      → Consistent db (inserted c (query_of ua) state d)
  unfolding inserted
  inserted-Consistent db c ua state d v p a =
      let new : CacheQuery = record { query = query_of ua; state = state; display = d } in
      record {
        size = omega (arith, length-set c.entries (c.idx_cache % 256) new, v.size);
        entries_true =
            All-set (IsTrue db) c.entries (c.idx_cache % 256) new v.entries_true
              (answered ua p refl a);
      }

  -- For a user agent of 1 to 81 bytes without a quotation mark, for which the database gives an
  -- answer that can be read, a request gets exactly that answer, whatever is in the cache, as
  -- long as every entry of the cache is true of the database. Afterwards the same holds of the
  -- cache, and the next request of this user agent gets the same again without any access to the
  -- database.
  pub retrieve_dim_from_db_lem :
      (db : Database) (c : DeviceCache) (r : Request Q) (ua : Bytes) (state : DbStat) (d : Display)
      → Consistent db c
      → r.user_agent ≡ some ua
      → Plain ua
      → 0 < length ua
      → length ua ≤ 81
      → fetch db (query_of ua) ≡ ok (state, d)
      → (c' : DeviceCache) × (retrieve_dim_from_db Q F as_float db c r
          ≡ (set_display Q F as_float r d >>= λ r'. ok (c', r')))
        × Consistent db c'
        × ((db' : Database)
            → retrieve_dim_from_db Q F as_float db' c' r
              ≡ (set_display Q F as_float r d >>= λ r'. ok (c', r')))
  retrieve_dim_from_db_lem db c r ua state d v u p some_agent short a =
      elim (Option-cases (find_query c.entries (query_of ua))) [
        | inr (e, f) ↦ (
          c,
          retrieve-hit db db c r ua e state d v u p some_agent short a f,
          v,
          λ db'. retrieve-hit db db' c r ua e state d v u p some_agent short a f,
        )
        | inl f ↦
            let c' = inserted c (query_of ua) state d in
            let v' = inserted-Consistent db c ua state d v p a in
            let (e, f') =
              found-set c.entries (c.idx_cache % 256)
                (record { query = query_of ua; state = state; display = d })
                (omega (arith, v.size)) in
            (
              c',
              retrieve-miss db c r ua state d v.size u some_agent short a f,
              v',
              λ db'.
                  retrieve-hit db db' c' r ua e state d v' u p some_agent short a
                    (unfold inserted in f'),
            )
      ]

  -- A user agent of more than 81 bytes overruns the buffer of the query, whatever the database and
  -- the cache are.
  pub retrieve_dim_from_db_overflow :
      (db : Database) (c : DeviceCache) (r : Request Q) (ua : Bytes)
      → r.user_agent ≡ some ua
      → 81 < length ua
      → retrieve_dim_from_db Q F as_float db c r ≡ fault
  unfolding retrieve_dim_from_db
  retrieve_dim_from_db_overflow db c r ua u long =
      ap
        (λ o. string_of Q F as_float o >>= λ a.
          build_query a >>= λ q. answer Q F as_float db c r q (find_query c.entries q))
        u
      ∙ unfold string_of in rw (build_query_long ua long)
