-- ===== src/Core/Debug.antt =====
-- The builds of src/core.c with DEBUG or TEST: the file that the print macros of src/core.h write to, and
-- the wrappers that exist in the build with DEBUG alone.
pub mod Opened
use sve.Base.{
  ℕ, suc, ◌+◌, Bool, true, false, Option, none, some, List, [], ◌∷◌, ◌++◌, if◌then◌else◌, ℤ, pos,
  negsuc, ◌==◌,
}
use sve.Kernel.{
  Kernel, Call, Reply, Payload, MsgFlags, Msghdr, Sockaddr, Prog, pure, ended, exited, crashed,
  ◌>>=◌, ◌>>◌, sys,
}
use sve.Core.Handover.{decimal}
use sve.Core.Wrappers.{exit_failure}
use sve.Exec.{strcpy, c_string}

-- `%d` of an int.
unfoldable pub int_text : ℤ → List ℕ
unfolding decimal
int_text (pos n) = decimal 10 n
int_text (negsuc m) = b'-' ∷ decimal 10 (m + 1)

-- "%s/dsu_%d.log", where `dir` is DEBUG or TEST.
unfoldable pub log_path : List ℕ → ℤ → List ℕ
unfolding int_text
log_path dir pid =
    dir
    ++ (b'/' ∷ b'd' ∷ b's' ∷ b'u' ∷ b'_' ∷ [])
    ++ int_text pid
    ++ (b'.' ∷ b'l' ∷ b'o' ∷ b'g' ∷ [])

-- "%d (%d-%d)\n" behind the name of a call.
unfoldable pub line : List ℕ → ℤ → ℤ → ℤ → List ℕ
unfolding int_text
line name fd pid tid =
    name
    ++ int_text fd
    ++ (b' ' ∷ b'(' ∷ [])
    ++ int_text pid
    ++ (b'-' ∷ [])
    ++ int_text tid
    ++ (b')' ∷ 10 ∷ [])

module _ (k : Kernel) where
  -- A print macro. A stream that is NULL is undefined: here the process crashes.
  unfoldable pub print : ℤ → List ℕ → Prog (Unit {0})
  print logfd text = if logfd == pos 0 then ended crashed else do
    printed ← sys k (Call.fprintf logfd text)
    flushed ← sys k (Call.fflush logfd)
    pure tt

  -- The head of dsu_init, with `test` for the build with TEST. `complaint` is the text that
  -- DSU_TEST_PRINT writes there. A copy that leaves the array is undefined.
  unfoldable pub open_file : Bool → List ℕ → Option (List ℕ) → Prog ℤ
  open_file test complaint none = ended crashed
  open_file test complaint (some logfile) = do
    r ← sys k (Call.fopen (c_string logfile))
    if r.value == pos 0
        then (do
          (if test then print r.value complaint else pure tt)
          sys k Call.perror
          exit_failure k)
        else pure r.value

  -- `junk` is what the array `logfile` holds before.
  unfoldable pub open_log : Bool → List ℕ → ℤ → List ℕ → List ℕ → Prog ℤ
  unfolding log_path
  open_log test dir pid junk complaint = open_file test complaint (strcpy junk 0 (log_path dir pid))

  -- The wrappers with DEBUG: a line, and the system's function.
  module _ (logfd pid tid : ℤ) where
    unfoldable pub traced : List ℕ → ℤ → Call → Prog Reply
    unfolding line
    traced name fd call = do print logfd (line name fd pid tid); sys k call

    unfoldable pub read : ℤ → ℕ → Prog Reply
    read fd count =
        traced (b'r' ∷ b'e' ∷ b'a' ∷ b'd' ∷ b'(' ∷ b')' ∷ b' ' ∷ []) fd (Call.read fd count)

    unfoldable pub recv : ℤ → ℕ → MsgFlags → Prog Reply
    recv sockfd len flags =
        traced (b'r' ∷ b'e' ∷ b'c' ∷ b'v' ∷ b'(' ∷ b')' ∷ b' ' ∷ []) sockfd
          (Call.recv sockfd len flags)

    unfoldable pub recvfrom : ℤ → ℕ → MsgFlags → Prog Reply
    recvfrom sockfd len flags =
        traced (b'r' ∷ b'e' ∷ b'c' ∷ b'v' ∷ b'f' ∷ b'r' ∷ b'o' ∷ b'm' ∷ b'(' ∷ b')' ∷ b' ' ∷ [])
          sockfd (Call.recvfrom sockfd len flags)

    unfoldable pub recvmsg : ℤ → MsgFlags → Prog Reply
    recvmsg sockfd flags =
        traced (b'r' ∷ b'e' ∷ b'c' ∷ b'v' ∷ b'm' ∷ b's' ∷ b'g' ∷ b'(' ∷ b')' ∷ b' ' ∷ []) sockfd
          (Call.recvmsg_with sockfd flags)

    unfoldable pub write : ℤ → Payload → Prog Reply
    write fd buf =
        traced (b'w' ∷ b'r' ∷ b'i' ∷ b't' ∷ b'e' ∷ b'(' ∷ b')' ∷ b' ' ∷ []) fd (Call.write fd buf)

    unfoldable pub send : ℤ → Payload → MsgFlags → Prog Reply
    send sockfd buf flags =
        traced (b's' ∷ b'e' ∷ b'n' ∷ b'd' ∷ b'(' ∷ b')' ∷ b' ' ∷ []) sockfd
          (Call.send sockfd buf flags)

    unfoldable pub sendto : ℤ → Payload → MsgFlags → Sockaddr → Prog Reply
    sendto sockfd buf flags dest_addr =
        traced (b's' ∷ b'e' ∷ b'n' ∷ b'd' ∷ b't' ∷ b'o' ∷ b'(' ∷ b')' ∷ b' ' ∷ []) sockfd
          (Call.sendto sockfd buf flags dest_addr)

    unfoldable pub sendmsg : ℤ → Msghdr → MsgFlags → Prog Reply
    sendmsg sockfd msg flags =
        traced (b's' ∷ b'e' ∷ b'n' ∷ b'd' ∷ b'm' ∷ b's' ∷ b'g' ∷ b'(' ∷ b')' ∷ b' ' ∷ []) sockfd
          (Call.sendmsg_with sockfd msg flags)

    unfoldable pub listen : ℤ → ℕ → Prog Reply
    listen sockfd backlog =
        traced
          (b'L' ∷ b'i' ∷ b's' ∷ b't' ∷ b'e' ∷ b'n' ∷ b'(' ∷ b')' ∷ b' ' ∷ b'o' ∷ b'n' ∷ b' ' ∷ b'f'
            ∷ b'd' ∷ b' ' ∷ [])
          sockfd (Call.listen sockfd backlog)
