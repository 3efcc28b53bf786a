-- ===== src/Examples/RevocationsCommands.antt =====
-- The commands of cmd/proxy/revoke.go, by example.
use mathlib.Core.Option.{none-ne-some}
use multi_ssh.Base.{◌≡◌, refl, true, false, [], some, Text, text_eq, insert, holds, arith, lookup}
use multi_ssh.Base.Files.{content, absent}
use multi_ssh.Base.Strings.{codes, byte_len, is_space, cut_prefix}
use multi_ssh.Revocations.{
  valid_fingerprint, read_revocations, revoked_now, manage_revocations, sample_fp,
}
use multi_ssh.Revocations.Commands.{note_or, insert-IsPrintable, revoke_lem}
use multi_ssh.Revocations.Store.{IsPrinted, IsPrintable, ReadsAs}

abbrev one_file : Text
one_file = codes "SHA256:abcdefghijklmnopqrstuvwxyz0123456789ABCDEFG lost"

printed : IsPrinted sample_fp (codes "lost")
unfolding valid_fingerprint cut_prefix byte_len is_space
printed = record {
  valid = refl;
  entry = record {
    key = record {
      solid = refl;
      no_comment = refl;
      one_word = refl;
      no_newline = refl;
      no_cr = refl;
    };
    value = record { front = refl; back = refl; no_newline = refl; no_cr = refl };
    short = ground arith;
  };
}

nothing_barred : IsPrintable []
unfolding lookup
nothing_barred k v e = absurd (none-ne-some v e)

one-IsPrintable : IsPrintable (insert sample_fp (codes "lost") [])
one-IsPrintable = insert-IsPrintable [] sample_fp (codes "lost") nothing_barred printed

revoke_lem_example :
    (t : Text) × (manage_revocations absent false sample_fp []
        (codes "lost")
        (codes "2026-01-01")
        true
      ≡ (revoked_now, some t))
    × ReadsAs
        (read_revocations (content t))
        (insert sample_fp (note_or (codes "lost") (codes "2026-01-01")) [])
unfolding read_revocations text_eq holds lookup
revoke_lem_example =
    revoke_lem absent [] sample_fp ((codes "lost")) ((codes "2026-01-01")) refl nothing_barred
      printed refl
