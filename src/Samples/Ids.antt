-- ===== src/Samples/Ids.antt =====
-- User ids, hashes and metadata.
use omega_services.Prelude.{
  ◌+◌, ◌%◌, ◌≡◌, refl, All, false, some, List, [], ◌∷◌, codes, arith, eq_nocase,
}
use omega_services.Tools.Uid.{UidArray, next_uid, generate_uid}
use omega_services.Tools.Uid.Counter.{uid_value, IsUid, id_count, generate_uid-value}
use omega_services.Metadata.{Metadata, add_metadata}
use omega_services.Metadata.Lookup.{read, HasNul, add_metadata-read}

abbrev last_of_a : UidArray
last_of_a = record { sid = codes "0AA"; lead = b'A'; digits = codes "AAA99" }

carry_runs :
    generate_uid false last_of_a
    ≡ some (record { sid = codes "0AA"; lead = b'A'; digits = codes "AABAA" })
unfolding generate_uid
carry_runs = refl

last_of_a-IsUid : IsUid last_of_a
last_of_a-IsUid = omega arith

generate_uid-value_example :
    (generate_uid false last_of_a ≡ some (next_uid last_of_a))
    × IsUid (next_uid last_of_a)
    × (uid_value (next_uid last_of_a) ≡ (uid_value last_of_a + 1) % id_count last_of_a)
    × ((next_uid last_of_a).sid ≡ codes "0AA")
generate_uid-value_example = generate_uid-value false last_of_a last_of_a-IsUid

abbrev version : List Metadata
version = record { key = codes "version"; value = codes "1.0" } ∷ []

add_metadata-read_example :
    (read (codes "Version") (add_metadata (codes "version") (codes "2.0") version)
      ≡ some (codes "2.0"))
    × All HasNul (add_metadata (codes "version") (codes "2.0") version)
unfolding eq_nocase
add_metadata-read_example =
    add_metadata-read (codes "version") (omega arith) (codes "2.0") (codes "Version") version
      (λ e. cc e) (λ e. cc e) (omega arith) ((omega arith, omega arith), tt)
