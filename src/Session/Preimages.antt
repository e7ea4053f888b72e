-- ===== src/Session/Preimages.antt =====
-- src/session.rs: the texts whose digests are a session's and a transaction's identifier. A digest
-- alone is 256 bits wide; what is shown is that two different subjects never have the same text.
use git_vws.Framing.{
  frame, frame-injective, be_bytes_inj8, be_bytes_inj4, be_bytes-IsShort, IsShort,
}
use git_vws.Authority.Identity.{Identity, Authority}
use git_vws.Session.Types.{SessionRecord}
use git_vws.Session.Validate.{id_fields}
use git_vws.Session.Publish.{txid_fields}
use git_vws.Base.{
  ℕ, zero, suc, ◌^◌, ◌<◌, ◌≡◌, refl, sym, ap, ◌≢◌, Option, none, some, List, [], ◌∷◌, arith, nat_Eq,
  string_Eq, bytes_Eq, option_bytes_Eq, option_nat_Eq, All, Bytes, codes,
}

-- A node as the kernel names it: the widths of its fields.
pub record IsNode (i : Identity) : Type 0 where
  pub dev : i.dev < 2 ^ 64
  pub ino : i.ino < 2 ^ 64
  pub uid : i.uid < 2 ^ 32

pub record IsWideNode (i : Identity) : Type 0 where
  pub dev : i.dev < 2 ^ 64
  pub ino : i.ino < 2 ^ 64
  pub uid : i.uid < 2 ^ 32
  pub mode : i.mode < 2 ^ 32
  pub kind : i.kind < 2 ^ 32
  pub nlink : i.nlink < 2 ^ 64

-- The first field and the rest.
nth : ℕ → List Bytes → Bytes
nth n [] = []
nth zero (x ∷ xs) = x
nth (suc n) (x ∷ xs) = nth n xs

id_fields-IsShort :
    (path : Bytes) (i : Identity) (name : Bytes)
    → IsShort path
    → IsShort name
    → All IsShort (id_fields path i name)
unfolding id_fields
id_fields-IsShort path i name hp hn = (
  omega arith,
  (
    hp,
    (
      be_bytes-IsShort 8 _ (omega arith),
      (be_bytes-IsShort 8 _ (omega arith), (be_bytes-IsShort 4 _ (omega arith), (hn, tt))),
    ),
  ),
)

-- The text that is digested to a session's identifier determines the authority's path, device, inode
-- and owner and the session's name, where the path and the name are shorter than 2^64 bytes and the
-- numbers have the kernel's widths.
pub id_fields-injective :
    (p q : Bytes) (i j : Identity) (n m : Bytes)
    → IsShort p
    → IsShort q
    → IsShort n
    → IsShort m
    → IsNode i
    → IsNode j
    → frame (id_fields p i n) ≡ frame (id_fields q j m)
    → (p ≡ q) × (i.dev ≡ j.dev) × (i.ino ≡ j.ino) × (i.uid ≡ j.uid) × (n ≡ m)
unfolding id_fields nth
id_fields-injective p q i j n m hp hq hn hm vi vj e =
    let fs =
      frame-injective (id_fields p i n) (id_fields q j m) (id_fields-IsShort p i n hp hn)
        (id_fields-IsShort q j m hq hm) e in
    (
      ap (nth 1) fs,
      be_bytes_inj8 i.dev j.dev vi.dev vj.dev (ap (nth 2) fs),
      be_bytes_inj8 i.ino j.ino vi.ino vj.ino (ap (nth 3) fs),
      be_bytes_inj4 i.uid j.uid vi.uid vj.uid (ap (nth 4) fs),
      ap (nth 5) fs,
    )

abbrev old_text : Option Bytes → Bytes
old_text o = elim o [ none ↦ codes "-" | some old ↦ old ]

old_text-injective :
    (o o' : Option Bytes)
    → o ≢ some (codes "-")
    → o' ≢ some (codes "-")
    → old_text o ≡ old_text o'
    → o ≡ o'
old_text-injective none none h h' e = refl
old_text-injective none (some b) h h' e = absurd (h' (ap some (sym e)))
old_text-injective (some a) none h h' e = absurd (h (ap some e))
old_text-injective (some a) (some b) h h' e = ap some e

-- What a transaction's identifier digests, besides the authority.
pub record Subject : Type 0 where
  pub session_record : SessionRecord
  pub target : Bytes
  pub expected_old : Option Bytes
  pub new : Bytes
  pub config : Bytes

abbrev subject_text : Authority → Subject → List Bytes
subject_text a s = txid_fields a s.session_record s.target s.expected_old s.new s.config

-- The text that is digested to a transaction's identifier determines the authority's path and node,
-- the session, the template, the branch, the old and the new commit and the configuration, where its
-- fields are shorter than 2^64 bytes, the numbers have the kernel's widths and no old commit is the
-- text `-`, which stands for a missing one.
pub txid_fields-injective :
    (a b : Authority) (s t : Subject)
    → All IsShort (subject_text a s)
    → All IsShort (subject_text b t)
    → IsWideNode a.identity
    → IsWideNode b.identity
    → s.expected_old ≢ some (codes "-")
    → t.expected_old ≢ some (codes "-")
    → frame (subject_text a s) ≡ frame (subject_text b t)
    → ((a.canonical ≡ b.canonical) × (a.identity ≡ b.identity))
      × ((s.session_record.sid ≡ t.session_record.sid)
          × (s.session_record.template_key ≡ t.session_record.template_key))
      × ((s.target ≡ t.target)
          × (s.expected_old ≡ t.expected_old)
          × (s.new ≡ t.new)
          × (s.config ≡ t.config))
unfolding txid_fields nth
txid_fields-injective a b s t hs ht va vb ho ho' e =
    let fs = frame-injective (subject_text a s) (subject_text b t) hs ht e in
    let dev = be_bytes_inj8 a.identity.dev b.identity.dev va.dev vb.dev (ap (nth 2) fs) in
    let ino = be_bytes_inj8 a.identity.ino b.identity.ino va.ino vb.ino (ap (nth 3) fs) in
    let uid = be_bytes_inj4 a.identity.uid b.identity.uid va.uid vb.uid (ap (nth 4) fs) in
    let mode = be_bytes_inj4 a.identity.mode b.identity.mode va.mode vb.mode (ap (nth 5) fs) in
    let kind = be_bytes_inj4 a.identity.kind b.identity.kind va.kind vb.kind (ap (nth 6) fs) in
    let nlink = be_bytes_inj8 a.identity.nlink b.identity.nlink va.nlink vb.nlink (ap (nth 7) fs) in
    (
      (ap (nth 1) fs, cc (dev, ino, uid, mode, kind, nlink)),
      (ap (nth 8) fs, ap (nth 9) fs),
      (
        ap (nth 10) fs,
        old_text-injective s.expected_old t.expected_old ho ho' (ap (nth 11) fs),
        ap (nth 12) fs,
        ap (nth 13) fs,
      ),
    )
