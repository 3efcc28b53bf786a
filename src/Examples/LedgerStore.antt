-- ===== src/Examples/LedgerStore.antt =====
-- The ledger of cmd/proxy/ledger.go, by example.
use multi_ssh.Base.{
  ◌≡◌, ◌↔◌, ◌⊎◌, refl, true, [], ◌∷◌, none, some, Text, ◌==◌, text_eq, lookup, if◌then◌else◌, arith,
}
use multi_ssh.Base.Files.{read_of, wrote}
use multi_ssh.Base.Records.{IsEntry}
use multi_ssh.Base.Strings.{codes, byte_len, is_space}
use multi_ssh.Examples.Data.{laptop}
use multi_ssh.Ledger.{Ledger, claim, reload}
use multi_ssh.Ledger.History.{perform_all, owners, no_ledger, reload_remembers, claiming, reloading}
use multi_ssh.Ledger.Store.{owner_after, claim_lem}

abbrev empty : Ledger
empty = record { m = []; file = none }

claim_lem_example :
    (((claim empty laptop (codes "fp") wrote).1 ≡ true)
      ↔ ((lookup laptop empty.m ≡ none) ⊎ (lookup laptop empty.m ≡ some (codes "fp"))))
    × ((k : Text)
        → lookup k (claim empty laptop (codes "fp") wrote).0.m ≡ (
            if k == laptop
            then some (owner_after (lookup laptop empty.m) (codes "fp"))
            else lookup k empty.m))
claim_lem_example = claim_lem empty laptop ((codes "fp")) wrote

laptop_entry : IsEntry laptop (codes "fp")
unfolding byte_len is_space
laptop_entry = record {
  key = record {
    solid = refl;
    no_comment = refl;
    one_word = refl;
    no_newline = refl;
    no_cr = refl;
  };
  value = record { front = refl; back = refl; no_newline = refl; no_cr = refl };
  short = ground arith;
}

other_entry : IsEntry laptop (codes "other")
unfolding byte_len is_space
other_entry = record {
  key = record {
    solid = refl;
    no_comment = refl;
    one_word = refl;
    no_newline = refl;
    no_cr = refl;
  };
  value = record { front = refl; back = refl; no_newline = refl; no_cr = refl };
  short = ground arith;
}

reload_remembers_example :
    let l =
      perform_all no_ledger
        (claiming laptop (codes "fp") ∷ reloading ∷ claiming laptop (codes "other") ∷ []) in
    ((reload l (read_of l.file)).1 ≡ true)
    × ((k : Text)
        → lookup k (reload l (read_of l.file)).0.m
          ≡ owners
              (λ n. none)
              (claiming laptop (codes "fp") ∷ reloading ∷ claiming laptop (codes "other") ∷ [])
              k)
reload_remembers_example =
    reload_remembers
      ((claiming laptop (codes "fp") ∷ reloading ∷ claiming laptop (codes "other") ∷ []))
      ((laptop_entry, (tt, (other_entry, tt))))
