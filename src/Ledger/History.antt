-- ===== src/Ledger/History.antt =====
-- Who owns a name after a history of claims, releases and reloads of the ledger (cmd/proxy/ledger.go)
-- whose writes succeed, and what a restart finds.
use mathlib.Core.Path.{subst}
use mathlib.Core.Option.{none-ne-some, some-injective}
use multi_ssh.Base.{
  ◌≡◌, refl, sym, ◌∙◌, true, List, [], ◌∷◌, Option, none, some, Text, ◌==◌, text_eq, lookup,
  if◌then◌else◌, All, Bool-cases, Option-cases, inl, inr, arith,
}
use multi_ssh.Base.Files.{read_of, wrote}
use multi_ssh.Base.Records.{IsEntry}
use multi_ssh.Ledger.{Ledger, claim, forget, reload, reload_with, read_bindings, open_ledger}
use multi_ssh.Ledger.Lines.{IsPrintable}
use multi_ssh.Ledger.Store.{
  IsStored, claim-IsStored, forget-IsStored, reload_same, owner_after, claim_lem,
}

pub data Op : Type 0 where
  claiming : Text → Text → Op
  forgetting : Text → Op
  reloading : Op

unfoldable pub perform : Ledger → Op → Ledger
perform l (claiming name fp) = (claim l name fp wrote).0
perform l (forgetting name) = (forget l name wrote).0
perform l reloading = (reload l (read_of l.file)).0

unfoldable pub perform_all : Ledger → List Op → Ledger
perform_all l [] = l
perform_all l (op ∷ ops) = perform_all (perform l op) ops

-- Owners, as a function of the name: the first to claim a free name has it until it is released.
abbrev pub Owners : Type 0
Owners = Text → Option Text

unfoldable pub next_owners : Owners → Op → Owners
next_owners own (claiming name fp) k = if k == name then some (owner_after (own name) fp) else own k
next_owners own (forgetting name) k = if k == name then none else own k
next_owners own reloading k = own k

unfoldable pub owners : Owners → List Op → Owners
owners own [] k = own k
owners own (op ∷ ops) k = owners (next_owners own op) ops k

-- What is claimed can be written as a line.
abbrev pub IsClean : Op → Type 0
IsClean (claiming name fp) = IsEntry name fp
IsClean (forgetting name) = Unit
IsClean reloading = Unit

abbrev pub no_ledger : Ledger
no_ledger = record { m = []; file = none }

-- File, memory and owners are in step.
record IsAgreed (l : Ledger) (own : Owners) : Type 0 where
  stored : IsStored l
  printable : IsPrintable l.m
  owned : (k : Text) → lookup k l.m ≡ own k

owner_entry :
    (m : Text → Option Text) (o : Option Text) (name fp v : Text)
    → o ≡ m name
    → ((w : Text) → m name ≡ some w → IsEntry name w)
    → IsEntry name fp
    → some (owner_after o fp) ≡ some v
    → IsEntry name v
owner_entry m none name fp v e p new h =
    subst (λ (w : Text). IsEntry name w) (some-injective fp v h) new
owner_entry m (some w) name fp v e p new h =
    subst (λ (u : Text). IsEntry name u) (some-injective w v h) (p w (sym e))

claim-IsPrintable :
    (l : Ledger) (name fp : Text)
    → IsEntry name fp
    → IsPrintable l.m
    → IsPrintable (claim l name fp wrote).0.m
claim-IsPrintable l name fp e p k v h =
    let is = sym ((claim_lem l name fp wrote).1 k) ∙ h in
    elim (Bool-cases (k == name)) [
      | inl yes' ↦
          let at : name ≡ k = ground arith in
          subst (λ (n : Text). IsEntry n v) at
            (owner_entry (λ n. lookup n l.m) (lookup name l.m) name fp v refl (p name) e
              (rw yes' at is))
      | inr no' ↦ p k v (rw no' at is)
    ]

reload-file : (l : Ledger) → (reload l (read_of l.file)).0.file ≡ l.file
unfolding reload reload_with
reload-file l = elim (Option-cases (open_ledger (read_of l.file))) [
  | inl e ↦ rw e refl
  | inr (m, e) ↦ rw e refl
]

perform-IsAgreed :
    (l : Ledger) (own : Owners) (op : Op)
    → IsClean op
    → IsAgreed l own
    → IsAgreed (perform l op) (next_owners own op)
unfolding perform next_owners
perform-IsAgreed l own (claiming name fp) e h = record {
  stored = claim-IsStored l name fp e h.stored;
  printable = claim-IsPrintable l name fp e h.printable;
  owned = λ k. (claim_lem l name fp wrote).1 k ∙ rw (h.owned name, h.owned k) refl;
}
perform-IsAgreed l own (forgetting name) e h =
    let (s, gone, r) = forget-IsStored l name h.printable h.stored in
    record {
      stored = s;
      printable = λ k v at. h.printable k v (ground (arith, gone k));
      owned = λ k. gone k ∙ rw (h.owned k) refl;
    }
perform-IsAgreed l own reloading e h =
    let (fine, same) = reload_same l h.stored in
    let (ls, file, lines, read) = h.stored in
    record {
      stored = (ls, rw (reload-file l) file, lines, λ k. read k ∙ sym (same k));
      printable = λ k v at. h.printable k v (sym (same k) ∙ at);
      owned = λ k. same k ∙ h.owned k;
    }

perform_all-IsAgreed :
    (l : Ledger) (own : Owners) (ops : List Op)
    → All IsClean ops
    → IsAgreed l own
    → IsAgreed (perform_all l ops) (owners own ops)
unfolding perform_all owners
perform_all-IsAgreed l own [] c h = h
perform_all-IsAgreed l own (op ∷ ops) (c, cs) h =
    let next = perform-IsAgreed l own op c h in
    let more = perform_all-IsAgreed (perform l op) (next_owners own op) ops cs next in
    record { stored = more.stored; printable = more.printable; owned = more.owned }

no_ledger-IsAgreed : IsAgreed no_ledger (λ k. none)
unfolding read_bindings lookup
no_ledger-IsAgreed = record {
  stored = ([], inr (refl, refl), tt, λ k. refl);
  printable = λ k v at. absurd (none-ne-some v at);
  owned = λ k. refl;
}

-- From no file at all, after any history of claims, releases and reloads whose writes succeed, each
-- claim one of a name and a fingerprint that fit a line: reading the file again succeeds, and gives
-- each name to whoever claimed it first since it was last free, and no other name to anybody.
pub reload_remembers :
    (ops : List Op)
    → All IsClean ops
    → let l = perform_all no_ledger ops in
      ((reload l (read_of l.file)).1 ≡ true)
      × ((k : Text) → lookup k (reload l (read_of l.file)).0.m ≡ owners (λ n. none) ops k)
reload_remembers ops c =
    let h = perform_all-IsAgreed no_ledger (λ n. none) ops c no_ledger-IsAgreed in
    let (fine, same) = reload_same (perform_all no_ledger ops) h.stored in
    (fine, λ k. same k ∙ h.owned k)
