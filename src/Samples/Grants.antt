-- ===== src/Samples/Grants.antt =====
-- Access lists.
use omega_services.Prelude.{◌≡◌, refl, Bool, true, false, some, List, [], ◌∷◌, Bytes, codes, inl}
use omega_services.Access.{Access, Account, check_access, set_access}
use omega_services.Access.Grants.{check_access-denied}

abbrev admins : List Access
admins =
    record {
      name = codes "admin";
      flags = codes "asj";
      hosts = codes "*@*.example.org" ∷ [];
      non_config = false;
    }
    ∷ []

abbrev account : Bytes → Bool → Bytes → Account
account host oper access = record {
  nick = codes "Nick";
  user = codes "me";
  host = host;
  ip = codes "192.0.2.7";
  oper = oper;
  service = false;
  access = access;
  metadata = [];
}

-- In `operonly` mode a user who is no operator does not get "s".
check_access-denied_example :
    check_access
      (set_access true admins (account (codes "irc.example.org") false (codes "uoasj"))).0
      (some (codes "s"))
    ≡ false
check_access-denied_example =
    check_access-denied true admins (account (codes "irc.example.org") false (codes "uoasj")) b's'
      [] refl (inl refl)
