-- ===== src/Tests/Outputs.antt =====
-- Git's answer about a branch, read.
use git_vws.Session.Names
use git_vws.Session.Git
use git_vws.Session.Git.{parse_target_commit_output}
use git_vws.Session.Git.Outputs
use git_vws.Tests.Fixture.{some_commit}
use git_vws.Base.{
  ◌≡◌, refl, some, ◌++◌, ℕ_discrete, nat_Eq, string_Eq, List-discrete, Option-discrete,
  Bytes-discrete, OptionBytes-discrete, bytes_Eq, option_bytes_Eq, option_nat_Eq,
  OptionNat-discrete, Bytes, codes, contains, strip_prefix, starts_with, strip_suffix, ends_with,
  includes, cut_first, cut_last, split, decimal, parse_unsigned, is_utf8, ok,
}

abbrev answer : Bytes
answer = codes "refs/heads/m " ++ (some_commit ++ codes " commit \n")

answer_parsed :
    parse_target_commit_output answer (codes "refs/heads/m") (codes "sha1") ≡ ok (some some_commit)
unfolding Git.config_key_is_safe Git.config_entry_is_safe Git.config_rows_are_safe
    Git.authority_config_is_safe Git.four_fields Git.parse_publish_oid Git.single_line
    Git.parse_reference parse_target_commit_output Names.valid_session_name Names.selected_name
    Names.root_name Names.tombstone_name Names.record_name Names.session_record_name
    Names.valid_hash Names.valid_lower_hash Names.valid_oid Names.valid_lower_oid
    Names.oid_matches_format Names.pack_oid Names.pack_entry_name Names.pack_entry_pair
    Names.loose_fanout_name List-discrete Option-discrete Bytes-discrete OptionBytes-discrete
    OptionNat-discrete contains strip_prefix starts_with strip_suffix ends_with includes cut_first
    cut_last split decimal parse_unsigned is_utf8 ℕ_discrete
answer_parsed = refl

parse_target_commit_output-Reports_example :
    Outputs.Reports answer (codes "refs/heads/m") (codes "sha1") (some some_commit)
parse_target_commit_output-Reports_example =
    Outputs.parse_target_commit_output-Reports answer (codes "refs/heads/m") (codes "sha1")
      (some some_commit) answer_parsed
