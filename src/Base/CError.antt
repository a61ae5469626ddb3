-- ===== src/Base/CError.antt =====
-- The error numbers of <errno.h> that the code returns, negated, as its results.

use oscillatord.Base.Int.{ℤ, pos, negsuc}

-- -1
abbrev pub fail : ℤ
fail = negsuc 0

-- -EINVAL (22)
abbrev pub e_inval : ℤ
e_inval = negsuc 21

-- -ENOSYS (38)
abbrev pub e_nosys : ℤ
e_nosys = negsuc 37

-- -ENOMEM (12)
abbrev pub e_nomem : ℤ
e_nomem = negsuc 11

abbrev pub success : ℤ
success = pos 0
