-- ===== src/Monitor/Table/Low.antt =====
-- The first half of `SYSCALL_TABLE` of syscall_table.py.
use unikernel_syscall_monito.Base.{List, [], ◌∷◌}
use unikernel_syscall_monito.Base.Text.{codes}
use unikernel_syscall_monito.Monitor.Table.Row.{Entry}

unfoldable pub low_entries : List Entry
low_entries =
    (record { num = 0; name = codes "read"; argc = 3 })
    ∷ (record { num = 1; name = codes "write"; argc = 3 })
    ∷ (record { num = 2; name = codes "open"; argc = 3 })
    ∷ (record { num = 3; name = codes "close"; argc = 1 })
    ∷ (record { num = 4; name = codes "stat"; argc = 2 })
    ∷ (record { num = 5; name = codes "fstat"; argc = 2 })
    ∷ (record { num = 6; name = codes "lstat"; argc = 2 })
    ∷ (record { num = 7; name = codes "poll"; argc = 3 })
    ∷ (record { num = 8; name = codes "lseek"; argc = 3 })
    ∷ (record { num = 9; name = codes "mmap"; argc = 6 })
    ∷ (record { num = 10; name = codes "mprotect"; argc = 3 })
    ∷ (record { num = 11; name = codes "munmap"; argc = 2 })
    ∷ (record { num = 12; name = codes "brk"; argc = 1 })
    ∷ (record { num = 13; name = codes "rt_sigaction"; argc = 4 })
    ∷ (record { num = 14; name = codes "rt_sigprocmask"; argc = 4 })
    ∷ (record { num = 16; name = codes "ioctl"; argc = 3 })
    ∷ (record { num = 17; name = codes "pread64"; argc = 4 })
    ∷ (record { num = 18; name = codes "pwrite64"; argc = 4 })
    ∷ (record { num = 19; name = codes "readv"; argc = 3 })
    ∷ (record { num = 20; name = codes "writev"; argc = 3 })
    ∷ (record { num = 21; name = codes "access"; argc = 2 })
    ∷ (record { num = 22; name = codes "pipe"; argc = 1 })
    ∷ (record { num = 23; name = codes "select"; argc = 5 })
    ∷ (record { num = 24; name = codes "sched_yield"; argc = 0 })
    ∷ (record { num = 26; name = codes "msync"; argc = 3 })
    ∷ (record { num = 28; name = codes "madvise"; argc = 3 })
    ∷ (record { num = 32; name = codes "dup"; argc = 1 })
    ∷ (record { num = 33; name = codes "dup2"; argc = 2 })
    ∷ (record { num = 34; name = codes "pause"; argc = 0 })
    ∷ (record { num = 35; name = codes "nanosleep"; argc = 2 })
    ∷ (record { num = 37; name = codes "alarm"; argc = 1 })
    ∷ (record { num = 38; name = codes "setitimer"; argc = 3 })
    ∷ (record { num = 39; name = codes "getpid"; argc = 0 })
    ∷ (record { num = 40; name = codes "sendfile"; argc = 4 })
    ∷ (record { num = 41; name = codes "socket"; argc = 3 })
    ∷ (record { num = 42; name = codes "connect"; argc = 3 })
    ∷ (record { num = 43; name = codes "accept"; argc = 3 })
    ∷ (record { num = 44; name = codes "sendto"; argc = 6 })
    ∷ (record { num = 45; name = codes "recvfrom"; argc = 6 })
    ∷ (record { num = 46; name = codes "sendmsg"; argc = 3 })
    ∷ (record { num = 47; name = codes "recvmsg"; argc = 3 })
    ∷ (record { num = 48; name = codes "shutdown"; argc = 2 })
    ∷ (record { num = 49; name = codes "bind"; argc = 3 })
    ∷ (record { num = 50; name = codes "listen"; argc = 2 })
    ∷ (record { num = 51; name = codes "getsockname"; argc = 3 })
    ∷ (record { num = 52; name = codes "getpeername"; argc = 3 })
    ∷ (record { num = 53; name = codes "socketpair"; argc = 4 })
    ∷ (record { num = 54; name = codes "setsockopt"; argc = 5 })
    ∷ (record { num = 55; name = codes "getsockopt"; argc = 5 })
    ∷ (record { num = 56; name = codes "clone"; argc = 5 })
    ∷ (record { num = 60; name = codes "exit"; argc = 1 })
    ∷ (record { num = 61; name = codes "wait4"; argc = 4 })
    ∷ (record { num = 62; name = codes "kill"; argc = 2 })
    ∷ (record { num = 63; name = codes "uname"; argc = 1 })
    ∷ (record { num = 72; name = codes "fcntl"; argc = 3 })
    ∷ (record { num = 73; name = codes "flock"; argc = 2 })
    ∷ (record { num = 74; name = codes "fsync"; argc = 1 })
    ∷ (record { num = 75; name = codes "fdatasync"; argc = 1 })
    ∷ (record { num = 76; name = codes "truncate"; argc = 2 })
    ∷ (record { num = 77; name = codes "ftruncate"; argc = 2 })
    ∷ (record { num = 78; name = codes "getdents"; argc = 3 })
    ∷ (record { num = 79; name = codes "getcwd"; argc = 2 })
    ∷ (record { num = 80; name = codes "chdir"; argc = 1 })
    ∷ (record { num = 81; name = codes "fchdir"; argc = 1 })
    ∷ (record { num = 82; name = codes "rename"; argc = 2 })
    ∷ (record { num = 83; name = codes "mkdir"; argc = 2 })
    ∷ (record { num = 84; name = codes "rmdir"; argc = 1 })
    ∷ (record { num = 85; name = codes "creat"; argc = 2 })
    ∷ (record { num = 86; name = codes "link"; argc = 2 })
    ∷ (record { num = 87; name = codes "unlink"; argc = 1 })
    ∷ (record { num = 88; name = codes "symlink"; argc = 2 })
    ∷ (record { num = 89; name = codes "readlink"; argc = 3 })
    ∷ (record { num = 90; name = codes "chmod"; argc = 2 })
    ∷ (record { num = 91; name = codes "fchmod"; argc = 2 })
    ∷ (record { num = 92; name = codes "chown"; argc = 3 })
    ∷ (record { num = 93; name = codes "fchown"; argc = 3 })
    ∷ (record { num = 94; name = codes "lchown"; argc = 3 })
    ∷ (record { num = 95; name = codes "umask"; argc = 1 })
    ∷ (record { num = 96; name = codes "gettimeofday"; argc = 2 })
    ∷ (record { num = 97; name = codes "getrlimit"; argc = 2 })
    ∷ (record { num = 98; name = codes "getrusage"; argc = 2 })
    ∷ (record { num = 99; name = codes "sysinfo"; argc = 1 })
    ∷ (record { num = 100; name = codes "times"; argc = 1 })
    ∷ (record { num = 102; name = codes "getuid"; argc = 0 })
    ∷ (record { num = 104; name = codes "getgid"; argc = 0 })
    ∷ (record { num = 105; name = codes "setuid"; argc = 1 })
    ∷ (record { num = 106; name = codes "setgid"; argc = 1 })
    ∷ (record { num = 107; name = codes "geteuid"; argc = 0 })
    ∷ (record { num = 108; name = codes "getegid"; argc = 0 })
    ∷ (record { num = 109; name = codes "setpgid"; argc = 2 })
    ∷ (record { num = 110; name = codes "getppid"; argc = 0 })
    ∷ (record { num = 111; name = codes "getpgrp"; argc = 0 })
    ∷ (record { num = 112; name = codes "setsid"; argc = 0 })
    ∷ []
