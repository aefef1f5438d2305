-- ===== src/Users/Unique.antt =====
-- Whom a nick finds after users have come and nicks have changed.
use omega_services.Prelude.{
  ◌≤◌, ◌≡◌, refl, sym, ap, ◌∙◌, Bool, true, false, ◌||◌, Option, none, some, List, [], ◌∷◌, ◌++◌,
  Bytes, take, take-eq_self, length, eq_nocase, eq_nocase_refl, ◌==◌, if◌then◌else◌, arith, All,
  Bool-cases, inl, inr,
}
use omega_services.Network.{Ptr, User, Net, put_user, emit, usernick, ◌>>=◌}
use omega_services.Users.{is_uid, is_user, find_in, find_user, new_user, new_nick}

-- What a search finds in the list with one more user at its end.
abbrev then_last : Ptr → Bool → Option Ptr → Option (Option Ptr)
then_last fresh hit (some q) = some (some q)
then_last fresh hit none = some (if hit then some fresh else none)

module _ (fresh : Ptr) (us : User) (n n' : Net) (test : User → Bool)
    (there : n'.user fresh ≡ some us)
    (same : (p : Ptr) → (p == fresh) ≡ false → n'.user p ≡ n.user p) where
  find_in-last :
      (ps : List Ptr)
      → All (λ p. (p == fresh) ≡ false) ps
      → find_in n' test (ps ++ fresh ∷ []) ≡ (find_in n test ps >>= then_last fresh (test us))
  unfolding find_in
  find_in-last [] new = rw there (ground arith)
  find_in-last (p ∷ ps) new = rw (same p new.0, find_in-last ps new.1) (split (n.user p))
    where
      split :
          (o : Option User)
          → (o >>= λ v.
              if test v then some (some p) else find_in n test ps >>= then_last fresh (test us))
            ≡ ((o >>= λ v. if test v then some (some p) else find_in n test ps)
                >>= then_last fresh (test us))
      split none = refl
      split (some v) = ground arith

is_user-new :
    (nick other : Bytes)
    → is_user other (record { nick = nick; uid = []; myconnect = false; channels = [] })
      ≡ eq_nocase nick other
unfolding is_user is_uid
is_user-new nick other = ground arith

then_last-false : (fresh : Ptr) (o : Option (Option Ptr)) → (o >>= then_last fresh false) ≡ o
then_last-false fresh none = refl
then_last-false fresh (some none) = refl
then_last-false fresh (some (some q)) = refl

-- The network with one more user.
abbrev pub with_user : Ptr → Bytes → Net → Net
with_user fresh nick n =
    record (put_user fresh (record { nick = nick; uid = []; myconnect = false; channels = [] }) n) {
      userlist = n.userlist ++ fresh ∷ [];
    }

pub find_user-with_user :
    (fresh : Ptr) (nick name : Bytes) (n : Net)
    → All (λ p. (p == fresh) ≡ false) n.userlist
    → find_user (with_user fresh nick n) name
      ≡ (find_user n name >>= then_last fresh (eq_nocase nick name))
unfolding find_user
find_user-with_user fresh nick name n new = rw (← is_user-new nick name) (
    find_in-last fresh (record { nick = nick; uid = []; myconnect = false; channels = [] }) n
      (with_user fresh nick n) (is_user name) (ground arith) (λ p e. ground arith) n.userlist new)

-- `new_user` with a nick of at most 49 bytes that is not known, at an address that is not in the
-- list, adds a user whom that nick then finds, and any name that differs from the nick, up to
-- case, finds whom it found before.
pub new_user-find :
    (fresh : Ptr) (nick other : Bytes) (n : Net)
    → find_user n nick ≡ some none
    → All (λ p. (p == fresh) ≡ false) n.userlist
    → length nick ≤ 49
    → eq_nocase nick other ≡ false
    → (n' : Net) × (new_user fresh nick n ≡ some (some fresh, n'))
      × (find_user n' nick ≡ some (some fresh))
      × (find_user n' other ≡ find_user n other)
unfolding new_user
new_user-find fresh nick other n unknown new fits differ = (
  with_user fresh nick n,
  rw (unknown, take-eq_self 49 nick fits) refl,
  find_user-with_user fresh nick nick n new ∙ rw (unknown, eq_nocase_refl nick) refl,
  find_user-with_user fresh nick other n new
      ∙ rw differ (then_last-false fresh (find_user n other)),
)

-- Every user of the list is on the heap.
abbrev pub Live : Net → List Ptr → Type 0
Live n ps = All (λ p. (us : User) × (n.user p ≡ some us)) ps

find_in-hit :
    (n : Net) (test : User → Bool) (before : List Ptr) (u : Ptr) (us : User) (after : List Ptr)
    → Live n before
    → n.user u ≡ some us
    → test us ≡ true
    → (q : Ptr) × (find_in n test (before ++ u ∷ after) ≡ some (some q))
unfolding find_in
find_in-hit n test [] u us after live there hit = (u, rw (there, hit) refl)
find_in-hit n test (p ∷ before) u us after live there hit =
    let (v, hv) = live.0 in
    elim (Bool-cases (test v)) [
      | inl e ↦ (p, rw (hv, e) refl)
      | inr e ↦
          (let (q, hq) = find_in-hit n test before u us after live.1 there hit in
            (q, rw (hv, e) hq))
    ]

-- A change of nick to a nick that differs from the user's own in case only is not followed, since
-- `NewNick` finds a user under the new nick, be it the user itself: the lists stay as they are.
-- The users in front of it in the list are on the heap.
pub new_nick-same :
    (n : Net) (before : List Ptr) (u : Ptr) (us : User) (after : List Ptr) (nick : Bytes)
    → n.userlist ≡ before ++ u ∷ after
    → Live n before
    → n.user u ≡ some us
    → eq_nocase us.nick nick ≡ true
    → new_nick u nick n ≡ some n
unfolding new_nick find_user is_user
new_nick-same n before u us after nick listed live there own =
    let (q, hq) = find_in-hit n (is_user nick) before u us after live there (ground arith) in
    let found : find_user n nick ≡ some (some q) = ap (find_in n (is_user nick)) listed ∙ hq in
    rw found refl

module _ (u : Ptr) (us : User) (n n' : Net) (test : User → Bool) (there : n'.user u ≡ some us)
    (hit : test us ≡ true) (same : (p : Ptr) → (p == u) ≡ false → n'.user p ≡ n.user p) where
  find_in-changed :
      (before after : List Ptr)
      → find_in n test (before ++ u ∷ after) ≡ some none
      → find_in n' test (before ++ u ∷ after) ≡ some (some u)
  unfolding find_in
  find_in-changed [] after h = rw (there, hit) refl
  find_in-changed (p ∷ before) after h = elim (Bool-cases (p == u)) [
    | inl e ↦ (let is_u : p ≡ u = ground arith in rw (is_u, there, hit) refl)
    | inr e ↦ rw (same p e) (split (n.user p) (find_in-changed before after) h)
  ]
    where
      split :
          (o : Option User)
          → (find_in n test (before ++ u ∷ after) ≡ some none
              → find_in n' test (before ++ u ∷ after) ≡ some (some u))
          → (o >>= λ v. if test v then some (some p) else find_in n test (before ++ u ∷ after))
            ≡ some none
          → (o >>= λ v. if test v then some (some p) else find_in n' test (before ++ u ∷ after))
            ≡ some (some u)
      split none ih e = cc
      split (some v) ih e = ground (arith, ih)

-- `NewNick` of a user in the list to a nick of at most 49 bytes that is not known gives the user
-- that nick, and the nick finds the user afterwards.
pub new_nick-find :
    (n : Net) (before : List Ptr) (u : Ptr) (us : User) (after : List Ptr) (nick : Bytes)
    → n.userlist ≡ before ++ u ∷ after
    → n.user u ≡ some us
    → find_user n nick ≡ some none
    → length nick ≤ 49
    → (n' : Net) × (new_nick u nick n ≡ some n')
      × (n'.user u ≡ some (record us { nick = nick }))
      × (find_user n' nick ≡ some (some u))
unfolding new_nick find_user is_user
new_nick-find n before u us after nick listed there unknown fits =
    let n' = emit (usernick u (take 31 us.nick)) (put_user u (record us { nick = nick }) n) in
    (
      n',
      rw (unknown, there, take-eq_self 49 nick fits) refl,
      ground arith,
      renamed n' (ground arith) (λ p e. ground arith) refl,
    )
  where
    own : (eq_nocase nick nick || is_uid nick (record us { nick = nick })) ≡ true
    own = rw (eq_nocase_refl nick) refl

    renamed :
        (n' : Net)
        → n'.user u ≡ some (record us { nick = nick })
        → ((p : Ptr) → (p == u) ≡ false → n'.user p ≡ n.user p)
        → n'.userlist ≡ n.userlist
        → find_user n' nick ≡ some (some u)
    renamed n' here same list =
        ap (find_in n' (is_user nick)) (list ∙ listed)
        ∙ find_in-changed u (record us { nick = nick }) n n' (is_user nick) here own same before
            after (ap (find_in n (is_user nick)) (sym listed) ∙ unknown)
