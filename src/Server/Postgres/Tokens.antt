-- ===== src/Server/Postgres/Tokens.antt =====
-- internal/server/storage/postgres/refresh_token.go: the table `refresh_tokens`, its rows under their
-- hashes, which are unique. A row has the columns that the entry of the in-memory store has.
use voldepass.Prelude.{
  String, ◌≡◌, ◌≢◌, refl, Bool, true, false, Option, none, some, if◌then◌else◌, arith, ◌⊎◌, inl,
  inr, Option-cases, eq_iff, sym, ap, ◌∙◌,
}
use voldepass.GoMap.{lookup, insert}
use voldepass.GoMap.Laws.{lookup-insert}
use voldepass.Domain.{Time, Result, ok, err, Error, not_found, internal}
use voldepass.Server.Inmem.Tokens
use voldepass.Server.Inmem.Tokens.{Entry, Store, revoke_of}

-- The INSERT: an error if the hash is taken, for it is unique.
unfoldable pub insert_token : String → String → Time → Store → Result (Unit {0}) × Store
insert_token user_id token_hash expires_at s = elim (lookup token_hash s.tokens) [
  | some _ ↦ (err internal, s)
  | none ↦ (
    ok tt,
    record {
      tokens =
          insert token_hash (record { user_id = user_id; expires_at = expires_at; revoked = false })
            s.tokens;
    },
  )
]

-- Save
unfoldable pub save : Bool → String → String → Time → Store → Result (Unit {0}) × Store
unfolding insert_token
save fails user_id token_hash expires_at s =
    if fails then (err internal, s) else insert_token user_id token_hash expires_at s

-- Get
unfoldable pub get : Bool → String → Store → Result Entry
get fails token_hash s =
    if fails
    then err internal
    else elim (lookup token_hash s.tokens) [ none ↦ err not_found | some e ↦ ok e ]

-- Where the transaction of Rotate can fail.
pub data Stage : Type 0 where
  begins revokes inserts commits : Stage

-- The end of Rotate's transaction: if it is not committed, nothing of it is kept.
abbrev pub finish : Option Stage → Store → Result (Unit {0}) × Store → Result (Unit {0}) × Store
finish (some commits) before (ok _, after) = (err internal, before)
finish failing before (ok _, after) = (ok tt, after)
finish failing before (err e, after) = (err e, before)

-- The INSERT of Rotate's transaction
abbrev pub insert_new : Option Stage → String → String → Time → Store → Result (Unit {0}) × Store
insert_new (some inserts) new_hash user_id expires_at s = (err internal, s)
insert_new failing new_hash user_id expires_at s = insert_token user_id new_hash expires_at s

-- Rotate from the UPDATE on
unfoldable pub replace :
    Option Stage → String → String → String → Time → Store → Result (Unit {0}) × Store
unfolding insert_token
replace failing old_hash new_hash user_id expires_at s = elim (lookup old_hash s.tokens) [
  | none ↦ (err not_found, s)
  | some e ↦ finish failing s (
      insert_new failing new_hash user_id expires_at
        (record { tokens = insert old_hash (record e { revoked = true }) s.tokens }))
]

-- Rotate
unfoldable pub rotate :
    Option Stage → String → String → String → Time → Store → Result (Unit {0}) × Store
unfolding replace
rotate (some begins) old_hash new_hash user_id expires_at s = (err internal, s)
rotate (some revokes) old_hash new_hash user_id expires_at s = (err internal, s)
rotate failing old_hash new_hash user_id expires_at s =
    replace failing old_hash new_hash user_id expires_at s

-- RevokeAll
unfoldable pub revoke_all : Bool → String → Store → Result (Unit {0}) × Store
unfolding Tokens.revoke_all
revoke_all fails user_id s =
    if fails then (err internal, s) else (ok tt, Tokens.revoke_all user_id s)

-- The transaction is whole or nothing: whatever fails in it, Rotate either reports an error and
-- changes nothing, or does what the in-memory store does.
pub rotate_whole :
    (failing : Option Stage) (old_hash new_hash user_id : String) (expires_at : Time) (s : Store)
    → ((e : Error) × (rotate failing old_hash new_hash user_id expires_at s ≡ (err e, s)))
      ⊎ (rotate failing old_hash new_hash user_id expires_at s
          ≡ Tokens.rotate old_hash new_hash user_id expires_at s)
unfolding rotate replace insert_token Tokens.rotate Tokens.save
rotate_whole (some begins) o n u x s = inl (internal, refl)
rotate_whole (some revokes) o n u x s = inl (internal, refl)
rotate_whole (some inserts) o n u x s = elim (Option-cases (lookup o s.tokens)) [
  | inl e ↦ inl (not_found, ground arith)
  | inr (y, e) ↦ inl (internal, ground arith)
]
rotate_whole (some commits) o n u x s = elim (Option-cases (lookup o s.tokens)) [
  | inl e ↦ inl (not_found, ground arith)
  | inr (y, e) ↦
      let marked = insert o (record y { revoked = true }) s.tokens in
      elim (Option-cases (lookup n marked)) [
        | inl free ↦ inl (internal, ground arith)
        | inr (z, taken) ↦ inl (internal, ground arith)
      ]
]
rotate_whole none o n u x s = elim (Option-cases (lookup o s.tokens)) [
  | inl e ↦ inr (ground arith)
  | inr (y, e) ↦
      let marked = insert o (record y { revoked = true }) s.tokens in
      elim (Option-cases (lookup n marked)) [
        | inl free ↦ inr (ground arith)
        | inr (z, taken) ↦ inl (internal, ground arith)
      ]
]

-- Rotate to a hash that is free, of a token that is there: it is not asked whether the token was
-- revoked.
pub rotate-free :
    (old_hash new_hash user_id : String) (expires_at : Time) (s : Store) (e : Entry)
    → lookup old_hash s.tokens ≡ some e
    → lookup new_hash s.tokens ≡ none
    → let s' = (rotate none old_hash new_hash user_id expires_at s).1 in
      ((rotate none old_hash new_hash user_id expires_at s).0 ≡ ok tt)
      × (lookup old_hash s'.tokens ≡ some (record e { revoked = true }))
      × (lookup new_hash s'.tokens
          ≡ some (record { user_id = user_id; expires_at = expires_at; revoked = false }))
      × ((h : String) → h ≢ old_hash → h ≢ new_hash → lookup h s'.tokens ≡ lookup h s.tokens)
unfolding rotate replace insert_token
rotate-free o n u x s e found free =
    let used : Entry = record e { revoked = true } in
    let given : Entry = record { user_id = u; expires_at = x; revoked = false } in
    let marked = insert o used s.tokens in
    let at_new = lookup-insert o n used s.tokens in
    (
      ground (arith, at_new, eq_iff o n),
      ground (
        arith,
        at_new,
        eq_iff o n,
        eq_iff n o,
        lookup-insert n o given marked,
        lookup-insert o o used s.tokens,
        eq_iff o o,
      ),
      ground (arith, at_new, eq_iff o n, lookup-insert n n given marked, eq_iff n n),
      λ h h₁ h₂. ground (
        arith,
        at_new,
        eq_iff o n,
        lookup-insert n h given marked,
        lookup-insert o h used s.tokens,
        eq_iff n h,
        eq_iff o h,
      ),
    )

-- Two Rotates of one token, to hashes that are free and differ: the second is done too, and both new
-- tokens are live. So two refreshes that read the token before either rotates it both get one.
pub rotate_again :
    (old first second user_id : String) (expires_at later : Time) (s : Store) (e : Entry)
    → lookup old s.tokens ≡ some e
    → lookup first s.tokens ≡ none
    → lookup second s.tokens ≡ none
    → first ≢ second
    → let s' = (rotate none old first user_id expires_at s).1 in
      let (r, s'') = rotate none old second user_id later s' in
      (r ≡ ok tt)
      × (lookup first s''.tokens
          ≡ some (record { user_id = user_id; expires_at = expires_at; revoked = false }))
      × (lookup second s''.tokens
          ≡ some (record { user_id = user_id; expires_at = later; revoked = false }))
rotate_again old first second user_id expires_at later s e found free free' ne =
    let absent : (h : String) → lookup h s.tokens ≡ none → h ≢ old =
      λ h none_at q. let same = ap (λ (k : String). lookup k s.tokens) q in cc in
    let once = rotate-free old first user_id expires_at s e found free in
    let s' = (rotate none old first user_id expires_at s).1 in
    let still : lookup second s'.tokens ≡ none =
      once.3 second (λ q. absent second free' q) (λ q. ne (sym q)) ∙ free' in
    let twice =
      rotate-free old second user_id later s' (record e { revoked = true }) once.1 still in
    (twice.0, twice.3 first (λ q. absent first free q) ne ∙ once.2, twice.2)
