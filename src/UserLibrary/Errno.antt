-- ===== src/UserLibrary/Errno.antt =====
-- user/src/errno.rs: the errors and the static `errno`.
use rasperry_pi_os.Prelude.{ℕ}

pub data Error : Type 0 where
  e2big eacces eaddrinuse eaddrnotavail eafnosupport eagain ealready ebadf ebadmsg ebusy ecanceled
        echild econnaborted econnrefused econnreset edeadlk edestaddrreq edom edquot eexist efault
        efbig ehostunreach eidrm eilseq einprogress eintr einval eio eisconn eisdir eloop emfile
        emlink emsgsize emultihop enametoolong enetdown enetreset enetunreach enfile enobufs enodata
        enodev enoent enoexec enolck enolink enomem enomsg enoprotoopt enospc enosr enostr enosys
        enotconn enotdir enotempty enotrecoverable enotsock enotsup enotty enxio eopnotsupp
        eoverflow eownerdead eperm epipe eproto eprotonosupport eprototype erange erofs espipe esrch
        estale etime etimedout etxtbsy ewouldblock exdev :
      Error

-- The discriminants, which count from 1.
unfoldable pub discriminant : Error → ℕ
discriminant e2big = 1
discriminant eacces = 2
discriminant eaddrinuse = 3
discriminant eaddrnotavail = 4
discriminant eafnosupport = 5
discriminant eagain = 6
discriminant ealready = 7
discriminant ebadf = 8
discriminant ebadmsg = 9
discriminant ebusy = 10
discriminant ecanceled = 11
discriminant echild = 12
discriminant econnaborted = 13
discriminant econnrefused = 14
discriminant econnreset = 15
discriminant edeadlk = 16
discriminant edestaddrreq = 17
discriminant edom = 18
discriminant edquot = 19
discriminant eexist = 20
discriminant efault = 21
discriminant efbig = 22
discriminant ehostunreach = 23
discriminant eidrm = 24
discriminant eilseq = 25
discriminant einprogress = 26
discriminant eintr = 27
discriminant einval = 28
discriminant eio = 29
discriminant eisconn = 30
discriminant eisdir = 31
discriminant eloop = 32
discriminant emfile = 33
discriminant emlink = 34
discriminant emsgsize = 35
discriminant emultihop = 36
discriminant enametoolong = 37
discriminant enetdown = 38
discriminant enetreset = 39
discriminant enetunreach = 40
discriminant enfile = 41
discriminant enobufs = 42
discriminant enodata = 43
discriminant enodev = 44
discriminant enoent = 45
discriminant enoexec = 46
discriminant enolck = 47
discriminant enolink = 48
discriminant enomem = 49
discriminant enomsg = 50
discriminant enoprotoopt = 51
discriminant enospc = 52
discriminant enosr = 53
discriminant enostr = 54
discriminant enosys = 55
discriminant enotconn = 56
discriminant enotdir = 57
discriminant enotempty = 58
discriminant enotrecoverable = 59
discriminant enotsock = 60
discriminant enotsup = 61
discriminant enotty = 62
discriminant enxio = 63
discriminant eopnotsupp = 64
discriminant eoverflow = 65
discriminant eownerdead = 66
discriminant eperm = 67
discriminant epipe = 68
discriminant eproto = 69
discriminant eprotonosupport = 70
discriminant eprototype = 71
discriminant erange = 72
discriminant erofs = 73
discriminant espipe = 74
discriminant esrch = 75
discriminant estale = 76
discriminant etime = 77
discriminant etimedout = 78
discriminant etxtbsy = 79
discriminant ewouldblock = 80
discriminant exdev = 81

-- `set_errno`: the value that the static holds then.
unfoldable pub set_errno : Error → ℕ
set_errno error = discriminant error
