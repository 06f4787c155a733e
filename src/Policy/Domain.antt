-- ===== src/Policy/Domain.antt =====
-- internal/policy/policy.go: `NormalizeDomain`, `NormalizeCgroup`, `CgroupWithin`.
use egresswall.Common.{Bool, ◌||◌, [], ◌∷◌, ◌++◌, any, ◌==◌, if◌then◌else◌, is_nil, Result, ok, err}
use egresswall.Text.{
  Text, codes, text_eq, lower, trim_space, trim_both, trim_suffix, has_prefix, split,
}

unfoldable pub normalize_domain : Text → Text
unfolding trim_suffix lower trim_space
normalize_domain d = trim_suffix (lower (trim_space d)) (codes ".")

pub data CgroupError : Type 0 where
  empty_path : CgroupError
  bad_path : Text → CgroupError

abbrev pub bad_part : Text → Bool
bad_part part = is_nil part || text_eq part (codes ".") || text_eq part (codes "..")

abbrev pub trim_slashes : Text → Text
trim_slashes = trim_both (λ c. c == b'/')

unfoldable pub normalize_cgroup : Text → Result CgroupError Text
normalize_cgroup path =
    let p = trim_slashes (trim_space path) in
    if is_nil p
    then err empty_path
    else if any bad_part (split b'/' p)
    then err (bad_path p)
    else ok p

unfoldable pub cgroup_within : Text → Text → Bool
cgroup_within child parent = text_eq child parent || has_prefix child (parent ++ b'/' ∷ [])
