-- ===== src/Auth/Policy.antt =====
-- Who gets which role: an account of the requests of Auth.Console that knows of roles by name only,
-- beside what the identity provider's links say.
use costcrew.Base.{Option, none, some, Text, if◌then◌else◌, trim_space, is_empty, ◌==◌}
use costcrew.Auth.Accounts.{Role, viewer, admin, read_role, Accounts, count_admins}
use costcrew.Auth.External.{linked_name, is_taken}
use costcrew.Auth.Console.{
  Form, Action, create_account, remove_account, change_role, Claims, Request, log_in, sign_up,
  log_out, manage, call_back, reset,
}
use costcrew.Auth.Roles.{Directory, Change, unchanged, granted, revoked, role_of}

unfoldable pub grant : Text → Option Role → Change
grant name none = unchanged
grant name (some r) = granted name r

abbrev pub first_role : Accounts → Role
first_role a = if count_admins a == 0 then admin else viewer

-- An administrator's act.
unfoldable pub managed : Action → Form → Change
unfolding grant
managed create_account f = grant (trim_space f.username) (read_role f.role)
managed remove_account f = revoked (trim_space f.username)
managed change_role f = grant (trim_space f.username) (read_role f.role)

-- The provider's role goes to the linked account, or to a new one if the name is free.
unfoldable pub claimed : Claims → Accounts → Change
unfolding grant
claimed x a = elim (linked_name x.issuer x.subject a) [
  | some name ↦ grant name (read_role x.role)
  | none ↦
      if is_taken (trim_space x.username) a
      then unchanged
      else grant (trim_space x.username) (read_role x.role)
]

abbrev pub role_or_admin : Text → Role
role_or_admin role = elim (read_role role) [ none ↦ admin | some r ↦ r ]

-- The command line gives a role to a new account only.
unfoldable pub reset_role : Text → Text → Directory → Change
reset_role name role d = elim (d name) [
  | none ↦ granted name (role_or_admin role)
  | some _ ↦ unchanged
]

unfoldable pub policy : Request → Accounts → Change
unfolding managed claimed reset_role
policy (log_in f) a = unchanged
policy (sign_up f) a = granted (trim_space f.username) (first_role a)
policy (log_out f) a = unchanged
policy (manage k f) a = managed k f
policy (call_back x f) a = if is_empty x.role then unchanged else claimed x a
policy (reset _ f) a = reset_role (trim_space f.username) f.role (role_of a)
