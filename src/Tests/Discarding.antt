-- ===== src/Tests/Discarding.antt =====
-- A listing of references and a HEAD that a discard lets through.
use git_vws.Session.Discard.Outputs
use git_vws.Session.Discard.Outputs.{refs_safe, unborn_head, git_safe_unborn_head}
use git_vws.Session.Discard.Disposable
use git_vws.Session.Discard.Disposable.{filled}
use git_vws.Session.Discard.SafeName.{Safe}
use git_vws.Tests.Fixture.{some_commit}
use git_vws.Base.{
  ◌≡◌, refl, false, some, [], ◌∷◌, ◌++◌, ℕ_discrete, nat_Eq, string_Eq, List-discrete,
  Bytes-discrete, bytes_Eq, option_bytes_Eq, option_nat_Eq, Bytes, codes, contains, strip_prefix,
  starts_with, strip_suffix, ends_with, includes, cut_last, split, ok, is_ok,
}

abbrev listing : Bytes
listing = codes "refs/heads/m " ++ (some_commit ++ (10 ∷ []))

listing_safe : refs_safe (codes "refs/heads/m") some_commit listing ≡ ok tt
unfolding refs_safe Outputs.count_refs Outputs.check_ref split cut_last Bytes-discrete List-discrete
    ℕ_discrete
listing_safe = refl

refs_safe-filled_example :
    filled (split 10 listing) ≡ (codes "refs/heads/m" ++ (b' ' ∷ some_commit)) ∷ []
refs_safe-filled_example =
    Disposable.refs_safe-filled (codes "refs/heads/m") some_commit listing listing_safe

-- A second reference is not let through.
two_refused : is_ok (refs_safe (codes "refs/heads/m") some_commit (listing ++ listing)) ≡ false
unfolding refs_safe Outputs.count_refs Outputs.check_ref split cut_last Bytes-discrete List-discrete
    ℕ_discrete
two_refused = refl

abbrev head_file : Bytes
head_file = codes "ref: refs/heads/main" ++ (10 ∷ [])

main_unborn : unborn_head head_file (codes "m") ≡ some (codes "main")
unfolding unborn_head Outputs.safe_head git_safe_unborn_head Outputs.is_safe_character
    Outputs.is_safe_component strip_prefix strip_suffix starts_with ends_with includes split
    contains Bytes-discrete List-discrete ℕ_discrete
main_unborn = refl

unborn_head_sound_example :
    (head_file ≡ codes "ref: refs/heads/" ++ (codes "main" ++ (10 ∷ [])))
    × Safe (codes "m") (codes "main")
unborn_head_sound_example =
    Disposable.unborn_head_sound head_file (codes "m") (codes "main") main_unborn
