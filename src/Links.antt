-- ===== src/Links.antt =====
-- src/links.c: the servers of the network, on a heap, and the list of them. `none` as a result is a read
-- through NULL or of freed memory, or a call that is nested deeper than the fuel. The walk over the list
-- in `exit_serv` keeps the next node while it calls itself, and a node that such a call has freed is
-- seen. Log messages, the time of the link and the counters of memory use are left out.
pub mod Search
pub mod Walk
pub mod Leaf
pub mod Dangling
use omega_services.Prelude.{
  ℕ, zero, suc, ◌+◌, Bool, true, false, ◌&&◌, ◌||◌, not, Option, none, some, List, [], ◌∷◌, ◌++◌,
  Bytes, length, eq_nocase, ◌==◌, if◌then◌else◌,
}
use omega_services.Access.{fit}
use omega_services.Network.{Ptr, Net, update, ◌>>=◌, find_delete, exit_one_user}

-- `Link`
pub record Link : Type 0 where
  pub name : Bytes
  pub sid : Bytes
  pub uplink : Option Ptr
  pub eos : Bool

-- The events of servers, in order.
pub data LinkEvent : Type 0 where
  serverconn serverexit : Ptr → LinkEvent

pub record Links : Type 0 where
  pub srv : Ptr → Option Link
  pub servlist : List Ptr
  pub servernum : ℕ
  pub net : Net
  pub events : List LinkEvent

abbrev pub is_empty : Bytes → Bool
is_empty [] = true
is_empty (c ∷ s) = false

-- By name, or by server id if there is one.
unfoldable pub is_serv : Bytes → Link → Bool
is_serv serv li = eq_nocase li.name serv || (not (is_empty li.sid) && eq_nocase li.sid serv)

-- The loop of `find_serv`.
unfoldable pub find_serv_in : (Ptr → Option Link) → Bytes → List Ptr → Option (Option Ptr)
unfolding is_serv
find_serv_in srv serv [] = some none
find_serv_in srv serv (p ∷ ps) =
    let rest = find_serv_in srv serv ps in
    srv p >>= λ li. if is_serv serv li then some (some p) else rest

-- `find_serv`
unfoldable pub find_serv : Bytes → Links → Option (Option Ptr)
unfolding find_serv_in
find_serv serv st = find_serv_in st.srv serv st.servlist

abbrev pub add_serv : Ptr → Option Ptr → Bytes → Links → Links
add_serv fresh uplink servername st = record st {
  srv =
      update st.srv fresh
        (some (record { name = fit 65 servername; sid = []; uplink = uplink; eos = false }));
  servlist = st.servlist ++ fresh ∷ [];
  servernum = st.servernum + 1;
  events = st.events ++ serverconn fresh ∷ [];
}

-- `new_serv`, at the address that `malloc` returns. A name that is not valid is only logged.
unfoldable pub new_serv : Ptr → Option Ptr → Bytes → Links → Option (Ptr × Links)
unfolding find_serv
new_serv fresh uplink servername st = find_serv servername st >>= λ r. elim r [
  | some p ↦ some (p, st)
  | none ↦ some (fresh, add_serv fresh uplink servername st)
]

-- `update_eos`
unfoldable pub update_eos : Bytes → Links → Option Links
unfolding find_serv
update_eos serv st = find_serv serv st >>= λ r. elim r [
  | none ↦ some st
  | some p ↦ st.srv p >>= λ li.
      some (record st { srv = update st.srv p (some (record li { eos = true })) })
]

-- `link_count`
unfoldable pub link_count : Links → ℕ
link_count st = st.servernum

-- The test of `exit_serv` on one user: on the server of that name. `serv_of` is the field `serv`.
unfoldable pub on_server : (Ptr → Option Ptr) → (Ptr → Option Link) → Bytes → Ptr → Option Bool
on_server serv_of srv name u = elim (serv_of u) [
  | none ↦ some false
  | some sp ↦ srv sp >>= λ li. some (eq_nocase name li.name)
]

-- The loop of `exit_serv` over the users.
unfoldable pub exit_users :
    (Ptr → Option Ptr) → (Ptr → Option Link) → Bytes → List Ptr → Net → Option Net
unfolding on_server
exit_users serv_of srv name [] n = some n
exit_users serv_of srv name (u ∷ us) n = on_server serv_of srv name u >>= λ here.
    (if here then exit_one_user u n else some n) >>= exit_users serv_of srv name us

-- What `exit_serv` does behind its walk, for the server `s`. The message reads the uplink's name.
unfoldable pub leave : (Ptr → Option Ptr) → Ptr → Links → Option Links
unfolding exit_users find_delete
leave serv_of s st = st.srv s >>= λ sl. sl.uplink >>= λ up. st.srv up >>= λ ul.
    exit_users serv_of st.srv sl.name st.net.userlist st.net >>= λ n. some (record st {
      net = n;
      events = st.events ++ serverexit s ∷ [];
      servlist = find_delete s st.servlist;
      srv = update st.srv s none;
    })

abbrev pub head_of : List Ptr → Option Ptr
head_of [] = none
head_of (p ∷ ps) = some p

-- The node behind that of `p`; `none` is a node that is not in the list any more.
unfoldable pub next_of : Ptr → List Ptr → Option (Option Ptr)
next_of p [] = none
next_of p (q ∷ qs) = if q == p then some (head_of qs) else next_of p qs

-- One round of the walk, on the server `li`: a server below `s` exits first.
unfoldable pub visit : (Bytes → Links → Option Links) → Ptr → Ptr → Links → Option Links
visit exit s li st = st.srv li >>= λ ll. elim ll.uplink [
  | none ↦ some st
  | some up ↦ st.srv up >>= λ ul.
      st.srv s >>= λ sl. if eq_nocase ul.name sl.name then exit ll.name st else some st
]

-- The walk of `exit_serv` from the node of a server.
unfoldable pub walk : (Bytes → Links → Option Links) → Ptr → ℕ → Option Ptr → Links → Option Links
unfolding next_of visit
walk exit s zero cur st = none
walk exit s (suc k) none st = some st
walk exit s (suc k) (some li) st =
    next_of li st.servlist >>= λ tdl. visit exit s li st >>= walk exit s k tdl

-- `exit_serv`, nested to the depth of the fuel.
unfoldable pub exit_serv : (Ptr → Option Ptr) → ℕ → Bytes → Links → Option Links
unfolding find_serv walk leave
exit_serv serv_of zero serv st = none
exit_serv serv_of (suc f) serv st = find_serv serv st >>= λ r. elim r [
  | none ↦ some st
  | some s ↦
      walk (exit_serv serv_of f) s (suc (length st.servlist)) (head_of st.servlist) st
      >>= leave serv_of s
]

-- The loop of `exit_all_servs`: all but the services' own entry go, which loses its uplink.
unfoldable pub exit_all_in :
    (servername : Bytes) → List Ptr → (Ptr → Option Link) → Option (List Ptr × (Ptr → Option Link))
exit_all_in servername [] srv = some ([], srv)
exit_all_in servername (p ∷ ps) srv = srv p >>= λ li.
    let ours = eq_nocase li.name servername in
    let kept : Option Link = if ours then some (record li { uplink = none }) else none in
    exit_all_in servername ps (update srv p kept) >>= λ r. some (if ours then p ∷ r.0 else r.0, r.1)

-- `exit_all_servs`
unfoldable pub exit_all_servs : (servername : Bytes) → Links → Option Links
unfolding exit_all_in
exit_all_servs servername st = exit_all_in servername st.servlist st.srv >>= λ r.
    some (record st { servlist = r.0; srv = r.1 })

-- The loop of `burst_local_servers`: the servers that are announced to the uplink.
unfoldable pub burst_in : (servername : Bytes) → (Ptr → Option Link) → List Ptr → Option (List Ptr)
burst_in servername srv [] = some []
burst_in servername srv (p ∷ ps) =
    let rest = burst_in servername srv ps in
    srv p >>= λ li. elim li.uplink [
      | none ↦ rest
      | some up ↦ srv up >>= λ ul.
          rest >>= λ out. some (if eq_nocase ul.name servername then p ∷ out else out)
    ]
