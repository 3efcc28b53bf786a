-- ===== src/Examples/RevocationsFailClosed.antt =====
-- Reading the barred keys of cmd/proxy/revoke.go, by example.
use multi_ssh.Base.{◌≡◌, refl, List, [], ◌∷◌, some, Text, text_eq, All, arith, ℕ_discrete, insert}
use multi_ssh.Base.Files.{unreadable}
use multi_ssh.Base.Scanner.{scan}
use multi_ssh.Base.Strings.{cut, trim_space, codes, byte_len, cut_prefix}
use multi_ssh.Examples.Data.{one_revoked}
use multi_ssh.Revocations.{
  valid_fingerprint, read_entry, read_entries, read_revocations, stat_failed, found, tick,
  sample_fp,
}
use multi_ssh.Revocations.FailClosed.{IsBarredLine, read_revocations_barred, tick_keeps}

read_revocations_barred_example :
    (lines : List Text) × (scan
        (codes "# x\nSHA256:abcdefghijklmnopqrstuvwxyz0123456789ABCDEFG lost")
      ≡ some lines)
    × All (IsBarredLine ((sample_fp, codes "lost") ∷ [])) lines
unfolding read_revocations read_entries read_entry valid_fingerprint cut_prefix byte_len scan cut
    trim_space insert text_eq ℕ_discrete
read_revocations_barred_example =
    read_revocations_barred ((codes "# x\nSHA256:abcdefghijklmnopqrstuvwxyz0123456789ABCDEFG lost"))
      (((sample_fp, codes "lost") ∷ [])) refl

tick_keeps_example :
    (tick one_revoked [] stat_failed unreadable ≡ (one_revoked, []))
    × (tick one_revoked [] (found 5 6) unreadable ≡ (one_revoked, []))
unfolding read_revocations
tick_keeps_example = tick_keeps one_revoked [] unreadable 5 6 (λ e. ground arith) refl
