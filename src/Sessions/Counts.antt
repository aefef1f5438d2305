-- ===== src/Sessions/Counts.antt =====
-- The table of sessions counts, for each host up to case, the users that have connected and not
-- left.
use omega_services.Prelude.{
  ℕ, ◌+◌, ◌-◌, ◌≤◌, ◌≡◌, refl, ap, ◌∙◌, Bool, true, false, Option, none, some, List, [], ◌∷◌, Bytes,
  take-eq_self, length, eq_nocase, eq_nocase-congruence, eq_nocase_join, eq_nocase_sym, ◌==◌,
  if◌then◌else◌, arith, All, Bool-cases, inl, inr,
}
use omega_services.Tools.Hash.{hash_safe, hash_safe-bucket}
use omega_services.Sessions.{
  Session, SessionsList, slist_size, put_bucket, find_session, add_to_bucket, del_from_bucket,
  add_session, del_session,
}

abbrev pub count_in : Option Session → ℕ
count_in none = 0
count_in (some s) = s.count

abbrev pub bucket_count : Bytes → List Session → ℕ
bucket_count host b = count_in (find_session host b)

-- The sessions of a host.
abbrev pub session_count : Bytes → SessionsList → ℕ
session_count host t = bucket_count host (t (hash_safe host slist_size))

-- No host has two entries in a bucket.
abbrev pub OneEntry : List Session → Type 0
OneEntry [] = Unit
OneEntry (s ∷ ss) = All (λ r. eq_nocase r.host s.host ≡ false) ss × OneEntry ss

module _ (now : ℕ) (host : Bytes) (fits : length host ≤ 99) where
  bucket_count-add :
      (j : Bytes) (b : List Session)
      → bucket_count j (add_to_bucket now host b)
        ≡ bucket_count j b + (if eq_nocase host j then 1 else 0)
  unfolding add_to_bucket find_session
  bucket_count-add j [] = rw (take-eq_self 99 host fits) (ground arith)
  bucket_count-add j (s ∷ ss) = elim (Bool-cases (eq_nocase s.host host)) [
    | inl hit ↦ rw (hit, eq_nocase-congruence s.host host j hit) (ground arith)
    | inr miss ↦ rw miss (ground (arith, bucket_count-add j ss, eq_nocase_join s.host host j))
  ]

  All-add :
      (k : Bytes) (b : List Session)
      → eq_nocase host k ≡ false
      → All (λ r. eq_nocase r.host k ≡ false) b
      → All (λ r. eq_nocase r.host k ≡ false) (add_to_bucket now host b)
  unfolding add_to_bucket
  All-add k [] e h = rw (take-eq_self 99 host fits) (e, tt)
  All-add k (s ∷ ss) e h = ground (arith, All-add k ss)

  host_apart : (k : Bytes) → eq_nocase k host ≡ false → eq_nocase host k ≡ false
  host_apart k miss = elim (Bool-cases (eq_nocase host k)) [
    | inl e ↦ cc (miss, eq_nocase_sym host k e)
    | inr e ↦ e
  ]

  OneEntry-add : (b : List Session) → OneEntry b → OneEntry (add_to_bucket now host b)
  unfolding add_to_bucket
  OneEntry-add [] h = (tt, tt)
  OneEntry-add (s ∷ ss) h = elim (Bool-cases (eq_nocase s.host host)) [
    | inl hit ↦ rw hit h
    | inr miss ↦ rw miss (All-add s.host ss (host_apart s.host miss) h.0, OneEntry-add ss h.1)
  ]

module _ (host : Bytes) where
  All-del :
      (k : Bytes) (b : List Session)
      → All (λ r. eq_nocase r.host k ≡ false) b
      → All (λ r. eq_nocase r.host k ≡ false) (del_from_bucket host b)
  unfolding del_from_bucket
  All-del k [] h = tt
  All-del k (s ∷ ss) h = ground (arith, All-del k ss)

  OneEntry-del : (b : List Session) → OneEntry b → OneEntry (del_from_bucket host b)
  unfolding del_from_bucket
  OneEntry-del [] h = tt
  OneEntry-del (s ∷ ss) h = ground (arith, All-del s.host ss, OneEntry-del ss)

  bucket_count-none :
      (k j : Bytes) (b : List Session)
      → eq_nocase k j ≡ true
      → All (λ r. eq_nocase r.host k ≡ false) b
      → bucket_count j b ≡ 0
  unfolding find_session
  bucket_count-none k j [] e h = refl
  bucket_count-none k j (s ∷ ss) e h = elim (Bool-cases (eq_nocase s.host j)) [
    | inl hit ↦ cc (h.0, eq_nocase_join s.host k j hit e)
    | inr miss ↦ rw miss (bucket_count-none k j ss e h.1)
  ]

  bucket_count-del :
      (j : Bytes) (b : List Session)
      → OneEntry b
      → bucket_count j (del_from_bucket host b)
        ≡ bucket_count j b - (if eq_nocase host j then 1 else 0)
  unfolding del_from_bucket find_session
  bucket_count-del j [] h = omega arith
  bucket_count-del j (s ∷ ss) h = elim (Bool-cases (eq_nocase s.host host)) [
    | inl hit ↦
        rw hit
          (ground (arith, eq_nocase-congruence s.host host j hit, bucket_count-none s.host j ss))
    | inr miss ↦ rw miss (ground (arith, bucket_count-del j ss, eq_nocase_join s.host host j))
  ]

-- No bucket has two entries of a host.
abbrev pub OneEntries : SessionsList → Type 0
OneEntries t = (i : ℕ) → OneEntry (t i)

module _ (host : Bytes) (t : SessionsList) where
  same_bucket :
      (j : Bytes) (x y : ℕ) (b : List Session) (n : ℕ)
      → x ≡ y
      → bucket_count j b ≡ n
      → bucket_count j (if x == y then b else t y) ≡ n
  same_bucket j x y b n e h = ground arith

  other_bucket :
      (j : Bytes) (x y : ℕ) (b : List Session)
      → bucket_count j b ≡ bucket_count j (t x)
      → bucket_count j (if x == y then b else t y) ≡ bucket_count j (t y)
  other_bucket j x y b h = ground arith

  -- A new bucket of `host` in the table changes the sessions of that host alone, if it does so in
  -- the bucket.
  session_count-put :
      (j : Bytes) (b : List Session) (f : ℕ → ℕ)
      → bucket_count j b ≡ (
          if eq_nocase host j
          then f (bucket_count j (t (hash_safe host slist_size)))
          else bucket_count j (t (hash_safe host slist_size)))
      → session_count j (put_bucket t (hash_safe host slist_size) b)
        ≡ (if eq_nocase host j then f (session_count j t) else session_count j t)
  session_count-put j b f e = elim (Bool-cases (eq_nocase host j)) [
    | inl same ↦
        let here = (hash_safe-bucket host j slist_size (omega arith) same).0 in
        rw same (
          same_bucket j (hash_safe host slist_size) (hash_safe j slist_size) b _ here
            (rw same at e ∙ ap (λ (i : ℕ). f (bucket_count j (t i))) here))
    | inr differ ↦
        rw differ
          (other_bucket j (hash_safe host slist_size) (hash_safe j slist_size) b (rw differ at e))
  ]

-- A user who connects from a host of at most 99 bytes, and is no service, adds one to the sessions
-- of that host up to case, and to no other host's.
pub session_count-add_session :
    (now : ℕ) (host j : Bytes) (t : SessionsList)
    → length host ≤ 99
    → session_count j (add_session now false host t).1
      ≡ (if eq_nocase host j then session_count j t + 1 else session_count j t)
unfolding add_session
session_count-add_session now host j t fits =
    session_count-put host t j _ (λ n. n + 1)
      (bucket_count-add now host fits j (t (hash_safe host slist_size))
        ∙ plus_if (eq_nocase host j) _)
  where
    plus_if : (b : Bool) (n : ℕ) → n + (if b then 1 else 0) ≡ (if b then n + 1 else n)
    plus_if b n = ground arith

-- A user who leaves takes one from the sessions of the host, if it has any, and from no other
-- host's, where no host has two entries.
pub session_count-del_session :
    (host j : Bytes) (t : SessionsList)
    → OneEntries t
    → session_count j (del_session host t)
      ≡ (if eq_nocase host j then session_count j t - 1 else session_count j t)
unfolding del_session
session_count-del_session host j t h =
    session_count-put host t j _ (λ n. n - 1)
      (bucket_count-del host j (t (hash_safe host slist_size)) (h (hash_safe host slist_size))
        ∙ minus_if (eq_nocase host j) _)
  where
    minus_if : (b : Bool) (n : ℕ) → n - (if b then 1 else 0) ≡ (if b then n - 1 else n)
    minus_if b n = ground arith

if_bucket :
    (b : Bool) (x y : List Session) → OneEntry x → OneEntry y → OneEntry (if b then x else y)
if_bucket true x y hx hy = hx
if_bucket false x y hx hy = hy

pub add_session-OneEntries :
    (now : ℕ) (service : Bool) (host : Bytes) (t : SessionsList)
    → length host ≤ 99
    → OneEntries t
    → OneEntries (add_session now service host t).1
unfolding add_session
add_session-OneEntries now true host t fits h i = h i
add_session-OneEntries now false host t fits h i =
    if_bucket (hash_safe host slist_size == i) _ (t i)
      (OneEntry-add now host fits (t (hash_safe host slist_size)) (h (hash_safe host slist_size)))
      (h i)

pub del_session-OneEntries :
    (host : Bytes) (t : SessionsList) → OneEntries t → OneEntries (del_session host t)
unfolding del_session
del_session-OneEntries host t h i =
    if_bucket (hash_safe host slist_size == i) _ (t i)
      (OneEntry-del host (t (hash_safe host slist_size)) (h (hash_safe host slist_size))) (h i)
