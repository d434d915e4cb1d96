-- ===== src/Auth.antt =====
-- auth/authenticate.go: the credentials of AUTH_UNIX, and when two of them count as equal.
-- `slices.Sort` and `slices.Compact` are written out.
pub mod Groups
pub mod Equality
use nfs4go.Common.{
  ℕ, ◌+◌, Bool, true, false, ◌&&◌, List, [], ◌∷◌, length, ltb, leb, ◌==◌, list_eq, if◌then◌else◌,
  Result, ok, err, auth_error, ◌>>=◌,
}
use nfs4go.Xdr.Words.{Read, get_uint32, get_bytes, get_times}
use nfs4go.Xdr.Layout.{Val}
use nfs4go.Msg.Types.{auth}
use Groups.{sort, compact}

pub record Creds : Type 0 where
  pub expiration_value : ℕ
  pub hostname : List ℕ
  pub uid : ℕ
  pub gid : ℕ
  pub additional_groups : List ℕ

-- `Creds.Decode`.
unfoldable pub decode_creds : Read Creds
decode_creds bs = do
  (expiration, rest1) ← get_uint32 bs
  (host, rest2) ← get_bytes rest1
  (user, rest3) ← get_uint32 rest2
  (group, rest4) ← get_uint32 rest3
  (size, rest5) ← get_uint32 rest4
  (groups, rest6) ← get_times size get_uint32 rest5
  ok (
    record {
      expiration_value = expiration;
      hostname = host;
      uid = user;
      gid = group;
      additional_groups = groups;
    },
    rest6,
  )

abbrev pub auth_flavor_unix : ℕ
auth_flavor_unix = 1

abbrev pub auth_tooweak : ℕ
auth_tooweak = 5

-- The answer for the reply, and the credentials. Bytes behind the credentials are not looked at, and
-- neither is the verifier.
unfoldable pub authenticate : Val auth → Val auth → Result (Val auth × Creds)
unfolding decode_creds
authenticate (flavor, (body, _)) verf =
    if ltb flavor auth_flavor_unix
    then err (auth_error auth_tooweak)
    else (do (credentials, _) ← decode_creds body; ok ((auth_flavor_unix, ([], tt)), credentials))

-- `d > 1 || d < -1` for the difference of the lengths.
far_apart : ℕ → ℕ → Bool
far_apart m n = if ltb (n + 1) m then true else ltb (m + 1) n

unfoldable pub creds_equal : Creds → Creds → Bool
unfolding far_apart
creds_equal c other =
    if list_eq c.additional_groups other.additional_groups
    then c.uid == other.uid
    else (if far_apart (length c.additional_groups) (length other.additional_groups)
        then false
        else c.uid == other.uid
          && list_eq (compact (sort (c.gid ∷ c.additional_groups)))
              (compact (sort (other.gid ∷ other.additional_groups))))
