-- ===== src/Syscall/Place.antt =====
-- Where a system call stands in the table of the numbers, by its place in the enumeration.
use check_protocols.Prelude.{ℕ, ◌≡◌, refl, ◌⊎◌, inl, inr, some, List, ◌++◌, get_elem?}
use check_protocols.Syscall.{
  Syscall, sys_read, sys_write, sys_open, sys_close, sys_stat, sys_fstat, sys_lstat, sys_poll,
  sys_lseek, sys_mmap, sys_mprotect, sys_munmap, sys_brk, sys_rt_sigaction, sys_rt_sigprocmask,
  sys_rt_sigreturn, sys_ioctl, sys_pread64, sys_pwrite64, sys_readv, sys_writev, sys_access,
  sys_pipe, sys_select, sys_sched_yield, sys_mremap, sys_msync, sys_mincore, sys_madvise,
  sys_shmget, sys_shmat, sys_shmctl, sys_dup, sys_dup2, sys_pause, sys_nanosleep, sys_getitimer,
  sys_alarm, sys_setitimer, sys_getpid, sys_sendfile, sys_socket, sys_connect, sys_accept,
  sys_sendto, sys_recvfrom, sys_sendmsg, sys_recvmsg, sys_shutdown, sys_bind, sys_listen,
  sys_getsockname, sys_getpeername, sys_socketpair, sys_setsockopt, sys_getsockopt, sys_clone,
  sys_fork, sys_vfork, sys_execve, sys_exit, sys_wait4, sys_kill, sys_uname, sys_semget, sys_semop,
  sys_semctl, sys_shmdt, sys_msgget, sys_msgsnd, sys_msgrcv, sys_msgctl, sys_fcntl, sys_flock,
  sys_fsync, sys_fdatasync, sys_truncate, sys_ftruncate, sys_getdents, sys_getcwd, sys_chdir,
  sys_fchdir, sys_rename, sys_mkdir, sys_rmdir, sys_creat, sys_link, sys_unlink, sys_symlink,
  sys_readlink, sys_chmod, sys_fchmod, sys_chown, sys_fchown, sys_lchown, sys_umask,
  sys_gettimeofday, sys_getrlimit, sys_getrusage, sys_sysinfo, sys_times, sys_ptrace, sys_getuid,
  sys_syslog, sys_getgid, sys_setuid, sys_setgid, sys_geteuid, sys_getegid, sys_setpgid,
  sys_getppid, sys_getpgrp, sys_setsid, sys_setreuid, sys_setregid, sys_getgroups, sys_setgroups,
  sys_setresuid, sys_getresuid, sys_setresgid, sys_getresgid, sys_getpgid, sys_setfsuid,
  sys_setfsgid, sys_getsid, sys_capget, sys_capset, sys_rt_sigpending, sys_rt_sigtimedwait,
  sys_rt_sigqueueinfo, sys_rt_sigsuspend, sys_sigaltstack, sys_utime, sys_mknod, sys_uselib,
  sys_personality, sys_ustat, sys_statfs, sys_fstatfs, sys_sysfs, sys_getpriority, sys_setpriority,
  sys_sched_setparam, sys_sched_getparam, sys_sched_setscheduler, sys_sched_getscheduler,
  sys_sched_get_priority_max, sys_sched_get_priority_min, sys_sched_rr_get_interval, sys_mlock,
  sys_munlock, sys_mlockall, sys_munlockall, sys_vhangup, sys_modify_ldt, sys_pivot_root,
  sys__sysctl, sys_prctl, sys_arch_prctl, sys_adjtimex, sys_setrlimit, sys_chroot, sys_sync,
  sys_acct, sys_settimeofday, sys_mount, sys_umount2, sys_swapon, sys_swapoff, sys_reboot,
  sys_sethostname, sys_setdomainname, sys_iopl, sys_ioperm, sys_create_module, sys_init_module,
  sys_delete_module, sys_get_kernel_syms, sys_query_module, sys_quotactl, sys_nfsservctl,
  sys_getpmsg, sys_putpmsg, sys_afs_syscall, sys_tuxcall, sys_security, sys_gettid, sys_readahead,
  sys_setxattr, sys_lsetxattr, sys_fsetxattr, sys_getxattr, sys_lgetxattr, sys_fgetxattr,
  sys_listxattr, sys_llistxattr, sys_flistxattr, sys_removexattr, sys_lremovexattr,
  sys_fremovexattr, sys_tkill, sys_time, sys_futex, sys_sched_setaffinity, sys_sched_getaffinity,
  sys_set_thread_area, sys_io_setup, sys_io_destroy, sys_io_getevents, sys_io_submit, sys_io_cancel,
  sys_get_thread_area, sys_lookup_dcookie, sys_epoll_create, sys_epoll_ctl_old, sys_epoll_wait_old,
  sys_remap_file_pages, sys_getdents64, sys_set_tid_address, sys_restart_syscall, sys_semtimedop,
  sys_fadvise64, sys_timer_create, sys_timer_settime, sys_timer_gettime, sys_timer_getoverrun,
  sys_timer_delete, sys_clock_settime, sys_clock_gettime, sys_clock_getres, sys_clock_nanosleep,
  sys_exit_group, sys_epoll_wait, sys_epoll_ctl, sys_tgkill, sys_utimes, sys_vserver, sys_mbind,
  sys_set_mempolicy, sys_get_mempolicy, sys_mq_open, sys_mq_unlink, sys_mq_timedsend,
  sys_mq_timedreceive, sys_mq_notify, sys_mq_getsetattr, sys_kexec_load, sys_waitid, sys_add_key,
  sys_request_key, sys_keyctl, sys_ioprio_set, sys_ioprio_get, sys_inotify_init,
  sys_inotify_add_watch, sys_inotify_rm_watch, sys_migrate_pages, sys_openat, sys_mkdirat,
  sys_mknodat, sys_fchownat, sys_futimesat, sys_newfstatat, sys_unlinkat, sys_renameat, sys_linkat,
  sys_symlinkat, sys_readlinkat, sys_fchmodat, sys_faccessat, sys_pselect6, sys_ppoll, sys_unshare,
  sys_set_robust_list, sys_get_robust_list, sys_splice, sys_tee, sys_sync_file_range, sys_vmsplice,
  sys_move_pages, sys_utimensat, sys_epoll_pwait, sys_signalfd, sys_timerfd_create, sys_eventfd,
  sys_fallocate, sys_timerfd_settime, sys_timerfd_gettime, sys_accept4, sys_signalfd4, sys_eventfd2,
  sys_epoll_create1, sys_dup3, sys_pipe2, sys_inotify_init1, sys_preadv, sys_pwritev,
  sys_rt_tgsigqueueinfo, sys_perf_event_open, sys_recvmmsg, sys_fanotify_init, sys_fanotify_mark,
  sys_prlimit64, sys_name_to_handle_at, sys_open_by_handle_at, sys_clock_adjtime, sys_syncfs,
  sys_sendmmsg, sys_setns, sys_getcpu, sys_process_vm_readv, sys_process_vm_writev, sys_kcmp,
  sys_finit_module, sys_sched_setattr, sys_sched_getattr, sys_renameat2, sys_seccomp, sys_getrandom,
  sys_memfd_create, sys_kexec_file_load, sys_bpf, sys_execveat, sys_userfaultfd, sys_membarrier,
  sys_mlock2, sys_copy_file_range, sys_preadv2, sys_pwritev2, sys_pkey_mprotect, sys_pkey_alloc,
  sys_pkey_free, unknown,
}
use check_protocols.Syscall.Code.{discriminant}
use check_protocols.Syscall.Table.{first_arms, middle_arms, last_arms}

unfoldable pub table : List (Syscall × Syscall)
unfolding first_arms middle_arms last_arms
table = first_arms ++ (middle_arms ++ last_arms)

pub place :
    (s : Syscall) → (get_elem? table (discriminant s) ≡ some (s, s)) ⊎ ((n : ℕ) × (s ≡ unknown n))
unfolding table first_arms middle_arms last_arms discriminant
place sys_read = inl refl
place sys_write = inl refl
place sys_open = inl refl
place sys_close = inl refl
place sys_stat = inl refl
place sys_fstat = inl refl
place sys_lstat = inl refl
place sys_poll = inl refl
place sys_lseek = inl refl
place sys_mmap = inl refl
place sys_mprotect = inl refl
place sys_munmap = inl refl
place sys_brk = inl refl
place sys_rt_sigaction = inl refl
place sys_rt_sigprocmask = inl refl
place sys_rt_sigreturn = inl refl
place sys_ioctl = inl refl
place sys_pread64 = inl refl
place sys_pwrite64 = inl refl
place sys_readv = inl refl
place sys_writev = inl refl
place sys_access = inl refl
place sys_pipe = inl refl
place sys_select = inl refl
place sys_sched_yield = inl refl
place sys_mremap = inl refl
place sys_msync = inl refl
place sys_mincore = inl refl
place sys_madvise = inl refl
place sys_shmget = inl refl
place sys_shmat = inl refl
place sys_shmctl = inl refl
place sys_dup = inl refl
place sys_dup2 = inl refl
place sys_pause = inl refl
place sys_nanosleep = inl refl
place sys_getitimer = inl refl
place sys_alarm = inl refl
place sys_setitimer = inl refl
place sys_getpid = inl refl
place sys_sendfile = inl refl
place sys_socket = inl refl
place sys_connect = inl refl
place sys_accept = inl refl
place sys_sendto = inl refl
place sys_recvfrom = inl refl
place sys_sendmsg = inl refl
place sys_recvmsg = inl refl
place sys_shutdown = inl refl
place sys_bind = inl refl
place sys_listen = inl refl
place sys_getsockname = inl refl
place sys_getpeername = inl refl
place sys_socketpair = inl refl
place sys_setsockopt = inl refl
place sys_getsockopt = inl refl
place sys_clone = inl refl
place sys_fork = inl refl
place sys_vfork = inl refl
place sys_execve = inl refl
place sys_exit = inl refl
place sys_wait4 = inl refl
place sys_kill = inl refl
place sys_uname = inl refl
place sys_semget = inl refl
place sys_semop = inl refl
place sys_semctl = inl refl
place sys_shmdt = inl refl
place sys_msgget = inl refl
place sys_msgsnd = inl refl
place sys_msgrcv = inl refl
place sys_msgctl = inl refl
place sys_fcntl = inl refl
place sys_flock = inl refl
place sys_fsync = inl refl
place sys_fdatasync = inl refl
place sys_truncate = inl refl
place sys_ftruncate = inl refl
place sys_getdents = inl refl
place sys_getcwd = inl refl
place sys_chdir = inl refl
place sys_fchdir = inl refl
place sys_rename = inl refl
place sys_mkdir = inl refl
place sys_rmdir = inl refl
place sys_creat = inl refl
place sys_link = inl refl
place sys_unlink = inl refl
place sys_symlink = inl refl
place sys_readlink = inl refl
place sys_chmod = inl refl
place sys_fchmod = inl refl
place sys_chown = inl refl
place sys_fchown = inl refl
place sys_lchown = inl refl
place sys_umask = inl refl
place sys_gettimeofday = inl refl
place sys_getrlimit = inl refl
place sys_getrusage = inl refl
place sys_sysinfo = inl refl
place sys_times = inl refl
place sys_ptrace = inl refl
place sys_getuid = inl refl
place sys_syslog = inl refl
place sys_getgid = inl refl
place sys_setuid = inl refl
place sys_setgid = inl refl
place sys_geteuid = inl refl
place sys_getegid = inl refl
place sys_setpgid = inl refl
place sys_getppid = inl refl
place sys_getpgrp = inl refl
place sys_setsid = inl refl
place sys_setreuid = inl refl
place sys_setregid = inl refl
place sys_getgroups = inl refl
place sys_setgroups = inl refl
place sys_setresuid = inl refl
place sys_getresuid = inl refl
place sys_setresgid = inl refl
place sys_getresgid = inl refl
place sys_getpgid = inl refl
place sys_setfsuid = inl refl
place sys_setfsgid = inl refl
place sys_getsid = inl refl
place sys_capget = inl refl
place sys_capset = inl refl
place sys_rt_sigpending = inl refl
place sys_rt_sigtimedwait = inl refl
place sys_rt_sigqueueinfo = inl refl
place sys_rt_sigsuspend = inl refl
place sys_sigaltstack = inl refl
place sys_utime = inl refl
place sys_mknod = inl refl
place sys_uselib = inl refl
place sys_personality = inl refl
place sys_ustat = inl refl
place sys_statfs = inl refl
place sys_fstatfs = inl refl
place sys_sysfs = inl refl
place sys_getpriority = inl refl
place sys_setpriority = inl refl
place sys_sched_setparam = inl refl
place sys_sched_getparam = inl refl
place sys_sched_setscheduler = inl refl
place sys_sched_getscheduler = inl refl
place sys_sched_get_priority_max = inl refl
place sys_sched_get_priority_min = inl refl
place sys_sched_rr_get_interval = inl refl
place sys_mlock = inl refl
place sys_munlock = inl refl
place sys_mlockall = inl refl
place sys_munlockall = inl refl
place sys_vhangup = inl refl
place sys_modify_ldt = inl refl
place sys_pivot_root = inl refl
place sys__sysctl = inl refl
place sys_prctl = inl refl
place sys_arch_prctl = inl refl
place sys_adjtimex = inl refl
place sys_setrlimit = inl refl
place sys_chroot = inl refl
place sys_sync = inl refl
place sys_acct = inl refl
place sys_settimeofday = inl refl
place sys_mount = inl refl
place sys_umount2 = inl refl
place sys_swapon = inl refl
place sys_swapoff = inl refl
place sys_reboot = inl refl
place sys_sethostname = inl refl
place sys_setdomainname = inl refl
place sys_iopl = inl refl
place sys_ioperm = inl refl
place sys_create_module = inl refl
place sys_init_module = inl refl
place sys_delete_module = inl refl
place sys_get_kernel_syms = inl refl
place sys_query_module = inl refl
place sys_quotactl = inl refl
place sys_nfsservctl = inl refl
place sys_getpmsg = inl refl
place sys_putpmsg = inl refl
place sys_afs_syscall = inl refl
place sys_tuxcall = inl refl
place sys_security = inl refl
place sys_gettid = inl refl
place sys_readahead = inl refl
place sys_setxattr = inl refl
place sys_lsetxattr = inl refl
place sys_fsetxattr = inl refl
place sys_getxattr = inl refl
place sys_lgetxattr = inl refl
place sys_fgetxattr = inl refl
place sys_listxattr = inl refl
place sys_llistxattr = inl refl
place sys_flistxattr = inl refl
place sys_removexattr = inl refl
place sys_lremovexattr = inl refl
place sys_fremovexattr = inl refl
place sys_tkill = inl refl
place sys_time = inl refl
place sys_futex = inl refl
place sys_sched_setaffinity = inl refl
place sys_sched_getaffinity = inl refl
place sys_set_thread_area = inl refl
place sys_io_setup = inl refl
place sys_io_destroy = inl refl
place sys_io_getevents = inl refl
place sys_io_submit = inl refl
place sys_io_cancel = inl refl
place sys_get_thread_area = inl refl
place sys_lookup_dcookie = inl refl
place sys_epoll_create = inl refl
place sys_epoll_ctl_old = inl refl
place sys_epoll_wait_old = inl refl
place sys_remap_file_pages = inl refl
place sys_getdents64 = inl refl
place sys_set_tid_address = inl refl
place sys_restart_syscall = inl refl
place sys_semtimedop = inl refl
place sys_fadvise64 = inl refl
place sys_timer_create = inl refl
place sys_timer_settime = inl refl
place sys_timer_gettime = inl refl
place sys_timer_getoverrun = inl refl
place sys_timer_delete = inl refl
place sys_clock_settime = inl refl
place sys_clock_gettime = inl refl
place sys_clock_getres = inl refl
place sys_clock_nanosleep = inl refl
place sys_exit_group = inl refl
place sys_epoll_wait = inl refl
place sys_epoll_ctl = inl refl
place sys_tgkill = inl refl
place sys_utimes = inl refl
place sys_vserver = inl refl
place sys_mbind = inl refl
place sys_set_mempolicy = inl refl
place sys_get_mempolicy = inl refl
place sys_mq_open = inl refl
place sys_mq_unlink = inl refl
place sys_mq_timedsend = inl refl
place sys_mq_timedreceive = inl refl
place sys_mq_notify = inl refl
place sys_mq_getsetattr = inl refl
place sys_kexec_load = inl refl
place sys_waitid = inl refl
place sys_add_key = inl refl
place sys_request_key = inl refl
place sys_keyctl = inl refl
place sys_ioprio_set = inl refl
place sys_ioprio_get = inl refl
place sys_inotify_init = inl refl
place sys_inotify_add_watch = inl refl
place sys_inotify_rm_watch = inl refl
place sys_migrate_pages = inl refl
place sys_openat = inl refl
place sys_mkdirat = inl refl
place sys_mknodat = inl refl
place sys_fchownat = inl refl
place sys_futimesat = inl refl
place sys_newfstatat = inl refl
place sys_unlinkat = inl refl
place sys_renameat = inl refl
place sys_linkat = inl refl
place sys_symlinkat = inl refl
place sys_readlinkat = inl refl
place sys_fchmodat = inl refl
place sys_faccessat = inl refl
place sys_pselect6 = inl refl
place sys_ppoll = inl refl
place sys_unshare = inl refl
place sys_set_robust_list = inl refl
place sys_get_robust_list = inl refl
place sys_splice = inl refl
place sys_tee = inl refl
place sys_sync_file_range = inl refl
place sys_vmsplice = inl refl
place sys_move_pages = inl refl
place sys_utimensat = inl refl
place sys_epoll_pwait = inl refl
place sys_signalfd = inl refl
place sys_timerfd_create = inl refl
place sys_eventfd = inl refl
place sys_fallocate = inl refl
place sys_timerfd_settime = inl refl
place sys_timerfd_gettime = inl refl
place sys_accept4 = inl refl
place sys_signalfd4 = inl refl
place sys_eventfd2 = inl refl
place sys_epoll_create1 = inl refl
place sys_dup3 = inl refl
place sys_pipe2 = inl refl
place sys_inotify_init1 = inl refl
place sys_preadv = inl refl
place sys_pwritev = inl refl
place sys_rt_tgsigqueueinfo = inl refl
place sys_perf_event_open = inl refl
place sys_recvmmsg = inl refl
place sys_fanotify_init = inl refl
place sys_fanotify_mark = inl refl
place sys_prlimit64 = inl refl
place sys_name_to_handle_at = inl refl
place sys_open_by_handle_at = inl refl
place sys_clock_adjtime = inl refl
place sys_syncfs = inl refl
place sys_sendmmsg = inl refl
place sys_setns = inl refl
place sys_getcpu = inl refl
place sys_process_vm_readv = inl refl
place sys_process_vm_writev = inl refl
place sys_kcmp = inl refl
place sys_finit_module = inl refl
place sys_sched_setattr = inl refl
place sys_sched_getattr = inl refl
place sys_renameat2 = inl refl
place sys_seccomp = inl refl
place sys_getrandom = inl refl
place sys_memfd_create = inl refl
place sys_kexec_file_load = inl refl
place sys_bpf = inl refl
place sys_execveat = inl refl
place sys_userfaultfd = inl refl
place sys_membarrier = inl refl
place sys_mlock2 = inl refl
place sys_copy_file_range = inl refl
place sys_preadv2 = inl refl
place sys_pwritev2 = inl refl
place sys_pkey_mprotect = inl refl
place sys_pkey_alloc = inl refl
place sys_pkey_free = inl refl
place (unknown n) = inr (n, refl)
