-- ===== src/Monitor/Table/High.antt =====
-- The second half of `SYSCALL_TABLE` of syscall_table.py.
use unikernel_syscall_monito.Base.{List, [], ◌∷◌}
use unikernel_syscall_monito.Base.Text.{codes}
use unikernel_syscall_monito.Monitor.Table.Row.{Entry}

unfoldable pub high_entries : List Entry
high_entries =
    (record { num = 113; name = codes "setreuid"; argc = 2 })
    ∷ (record { num = 114; name = codes "setregid"; argc = 2 })
    ∷ (record { num = 115; name = codes "getgroups"; argc = 2 })
    ∷ (record { num = 116; name = codes "setgroups"; argc = 2 })
    ∷ (record { num = 117; name = codes "setresuid"; argc = 3 })
    ∷ (record { num = 118; name = codes "getresuid"; argc = 3 })
    ∷ (record { num = 119; name = codes "setresgid"; argc = 3 })
    ∷ (record { num = 120; name = codes "getresgid"; argc = 3 })
    ∷ (record { num = 121; name = codes "getpgid"; argc = 1 })
    ∷ (record { num = 122; name = codes "setfsuid"; argc = 1 })
    ∷ (record { num = 123; name = codes "setfsgid"; argc = 1 })
    ∷ (record { num = 124; name = codes "getsid"; argc = 1 })
    ∷ (record { num = 125; name = codes "capget"; argc = 2 })
    ∷ (record { num = 126; name = codes "capset"; argc = 2 })
    ∷ (record { num = 127; name = codes "rt_sigpending"; argc = 2 })
    ∷ (record { num = 128; name = codes "rt_sigtimedwait"; argc = 4 })
    ∷ (record { num = 129; name = codes "rt_sigqueueinfo"; argc = 3 })
    ∷ (record { num = 130; name = codes "rt_sigsuspend"; argc = 2 })
    ∷ (record { num = 131; name = codes "sigaltstack"; argc = 2 })
    ∷ (record { num = 132; name = codes "utime"; argc = 2 })
    ∷ (record { num = 133; name = codes "mknod"; argc = 3 })
    ∷ (record { num = 137; name = codes "statfs"; argc = 2 })
    ∷ (record { num = 138; name = codes "fstatfs"; argc = 2 })
    ∷ (record { num = 140; name = codes "getpriority"; argc = 2 })
    ∷ (record { num = 141; name = codes "setpriority"; argc = 3 })
    ∷ (record { num = 149; name = codes "mlock"; argc = 2 })
    ∷ (record { num = 157; name = codes "prctl"; argc = 5 })
    ∷ (record { num = 158; name = codes "arch_prctl"; argc = 3 })
    ∷ (record { num = 160; name = codes "setrlimit"; argc = 2 })
    ∷ (record { num = 161; name = codes "chroot"; argc = 1 })
    ∷ (record { num = 162; name = codes "sync"; argc = 0 })
    ∷ (record { num = 164; name = codes "settimeofday"; argc = 2 })
    ∷ (record { num = 165; name = codes "mount"; argc = 5 })
    ∷ (record { num = 166; name = codes "umount2"; argc = 2 })
    ∷ (record { num = 170; name = codes "sethostname"; argc = 2 })
    ∷ (record { num = 186; name = codes "gettid"; argc = 0 })
    ∷ (record { num = 200; name = codes "tkill"; argc = 2 })
    ∷ (record { num = 201; name = codes "time"; argc = 1 })
    ∷ (record { num = 202; name = codes "futex"; argc = 6 })
    ∷ (record { num = 203; name = codes "sched_setaffinity"; argc = 3 })
    ∷ (record { num = 204; name = codes "sched_getaffinity"; argc = 3 })
    ∷ (record { num = 213; name = codes "epoll_create"; argc = 1 })
    ∷ (record { num = 217; name = codes "getdents64"; argc = 3 })
    ∷ (record { num = 218; name = codes "set_tid_address"; argc = 1 })
    ∷ (record { num = 221; name = codes "fadvise64"; argc = 4 })
    ∷ (record { num = 222; name = codes "timer_create"; argc = 3 })
    ∷ (record { num = 223; name = codes "timer_settime"; argc = 4 })
    ∷ (record { num = 224; name = codes "timer_gettime"; argc = 2 })
    ∷ (record { num = 225; name = codes "timer_getoverrun"; argc = 1 })
    ∷ (record { num = 226; name = codes "timer_delete"; argc = 1 })
    ∷ (record { num = 227; name = codes "clock_settime"; argc = 2 })
    ∷ (record { num = 228; name = codes "clock_gettime"; argc = 2 })
    ∷ (record { num = 229; name = codes "clock_getres"; argc = 2 })
    ∷ (record { num = 230; name = codes "clock_nanosleep"; argc = 4 })
    ∷ (record { num = 231; name = codes "exit_group"; argc = 1 })
    ∷ (record { num = 232; name = codes "epoll_wait"; argc = 4 })
    ∷ (record { num = 233; name = codes "epoll_ctl"; argc = 4 })
    ∷ (record { num = 234; name = codes "tgkill"; argc = 3 })
    ∷ (record { num = 235; name = codes "utimes"; argc = 2 })
    ∷ (record { num = 247; name = codes "waitid"; argc = 5 })
    ∷ (record { num = 257; name = codes "openat"; argc = 4 })
    ∷ (record { num = 258; name = codes "mkdirat"; argc = 3 })
    ∷ (record { num = 261; name = codes "futimesat"; argc = 3 })
    ∷ (record { num = 262; name = codes "newfstatat"; argc = 4 })
    ∷ (record { num = 263; name = codes "unlinkat"; argc = 3 })
    ∷ (record { num = 264; name = codes "renameat"; argc = 4 })
    ∷ (record { num = 267; name = codes "readlinkat"; argc = 4 })
    ∷ (record { num = 269; name = codes "faccessat"; argc = 4 })
    ∷ (record { num = 270; name = codes "pselect6"; argc = 6 })
    ∷ (record { num = 271; name = codes "ppoll"; argc = 5 })
    ∷ (record { num = 280; name = codes "utimensat"; argc = 4 })
    ∷ (record { num = 281; name = codes "epoll_pwait"; argc = 6 })
    ∷ (record { num = 283; name = codes "timerfd_create"; argc = 2 })
    ∷ (record { num = 284; name = codes "eventfd"; argc = 1 })
    ∷ (record { num = 285; name = codes "fallocate"; argc = 4 })
    ∷ (record { num = 286; name = codes "timerfd_settime"; argc = 4 })
    ∷ (record { num = 287; name = codes "timerfd_gettime"; argc = 2 })
    ∷ (record { num = 288; name = codes "accept4"; argc = 4 })
    ∷ (record { num = 290; name = codes "eventfd2"; argc = 2 })
    ∷ (record { num = 291; name = codes "epoll_create1"; argc = 1 })
    ∷ (record { num = 292; name = codes "dup3"; argc = 3 })
    ∷ (record { num = 293; name = codes "pipe2"; argc = 2 })
    ∷ (record { num = 295; name = codes "preadv"; argc = 4 })
    ∷ (record { num = 296; name = codes "pwritev"; argc = 4 })
    ∷ (record { num = 297; name = codes "rt_tgsigqueueinfo"; argc = 4 })
    ∷ (record { num = 302; name = codes "prlimit64"; argc = 4 })
    ∷ (record { num = 309; name = codes "getcpu"; argc = 3 })
    ∷ (record { num = 318; name = codes "getrandom"; argc = 3 })
    ∷ (record { num = 324; name = codes "membarrier"; argc = 3 })
    ∷ (record { num = 327; name = codes "preadv2"; argc = 5 })
    ∷ (record { num = 328; name = codes "pwritev2"; argc = 5 })
    ∷ (record { num = 441; name = codes "epoll_pwait2"; argc = 6 })
    ∷ []
