-- ===== src/Syscall/Table.antt =====
-- The `match` of `From<user_regs_struct>`: its arms in their order. Which number a name stands for is
-- a constant of libc.
use check_protocols.Prelude.{List, [], ◌∷◌}
use check_protocols.Syscall.{
  Syscall, sys_read, sys_write, sys_open, sys_close, sys_stat, sys_fstat, sys_lstat, sys_poll,
  sys_lseek, sys_mmap, sys_mprotect, sys_munmap, sys_brk, sys_rt_sigaction, sys_rt_sigprocmask,
  sys_rt_sigreturn, sys_ioctl, sys_pread64, sys_pwrite64, sys_readv, sys_writev, sys_access,
  sys_pipe, sys_select, sys_sched_yield, sys_mremap, sys_msync, sys_mincore, sys_madvise,
  sys_shmget, sys_shmat, sys_shmctl, sys_dup, sys_dup2, sys_pause, sys_nanosleep, sys_getitimer,
  sys_alarm, sys_setitimer, sys_getpid, sys_sendfile, sys_socket, sys_connect, sys_accept,
  sys_sendto, sys_recvfrom, sys_sendmsg, sys_recvmsg, sys_shutdown, sys_bind, sys_listen,
  sys_getsockname, sys_getpeername, sys_socketpair, sys_setsockopt, sys_getsockopt, sys_clone,
  sys_fork, sys_vfork, sys_execve, sys_exit, sys_wait4, sys_kill, sys_uname, sys_semget, sys_semop,
  sys_semctl, sys_shmdt, sys_msgget, sys_msgsnd, sys_msgrcv, sys_msgctl, sys_fcntl, sys_flock,
  sys_fsync, sys_fdatasync, sys_truncate, sys_ftruncate, sys_getdents, sys_getcwd, sys_chdir,
  sys_fchdir, sys_rename, sys_mkdir, sys_rmdir, sys_creat, sys_link, sys_unlink, sys_symlink,
  sys_readlink, sys_chmod, sys_fchmod, sys_chown, sys_fchown, sys_lchown, sys_umask,
  sys_gettimeofday, sys_getrlimit, sys_getrusage, sys_sysinfo, sys_times, sys_ptrace, sys_getuid,
  sys_syslog, sys_getgid, sys_setuid, sys_setgid, sys_geteuid, sys_getegid, sys_setpgid,
  sys_getppid, sys_getpgrp, sys_setsid, sys_setreuid, sys_setregid, sys_getgroups, sys_setgroups,
  sys_setresuid, sys_getresuid, sys_setresgid, sys_getresgid, sys_getpgid, sys_setfsuid,
  sys_setfsgid, sys_getsid, sys_capget, sys_capset, sys_rt_sigpending, sys_rt_sigtimedwait,
  sys_rt_sigqueueinfo, sys_rt_sigsuspend, sys_sigaltstack, sys_utime, sys_mknod, sys_uselib,
  sys_personality, sys_ustat, sys_statfs, sys_fstatfs, sys_sysfs, sys_getpriority, sys_setpriority,
  sys_sched_setparam, sys_sched_getparam, sys_sched_setscheduler, sys_sched_getscheduler,
  sys_sched_get_priority_max, sys_sched_get_priority_min, sys_sched_rr_get_interval, sys_mlock,
  sys_munlock, sys_mlockall, sys_munlockall, sys_vhangup, sys_modify_ldt, sys_pivot_root,
  sys__sysctl, sys_prctl, sys_arch_prctl, sys_adjtimex, sys_setrlimit, sys_chroot, sys_sync,
  sys_acct, sys_settimeofday, sys_mount, sys_umount2, sys_swapon, sys_swapoff, sys_reboot,
  sys_sethostname, sys_setdomainname, sys_iopl, sys_ioperm, sys_create_module, sys_init_module,
  sys_delete_module, sys_get_kernel_syms, sys_query_module, sys_quotactl, sys_nfsservctl,
  sys_getpmsg, sys_putpmsg, sys_afs_syscall, sys_tuxcall, sys_security, sys_gettid, sys_readahead,
  sys_setxattr, sys_lsetxattr, sys_fsetxattr, sys_getxattr, sys_lgetxattr, sys_fgetxattr,
  sys_listxattr, sys_llistxattr, sys_flistxattr, sys_removexattr, sys_lremovexattr,
  sys_fremovexattr, sys_tkill, sys_time, sys_futex, sys_sched_setaffinity, sys_sched_getaffinity,
  sys_set_thread_area, sys_io_setup, sys_io_destroy, sys_io_getevents, sys_io_submit, sys_io_cancel,
  sys_get_thread_area, sys_lookup_dcookie, sys_epoll_create, sys_epoll_ctl_old, sys_epoll_wait_old,
  sys_remap_file_pages, sys_getdents64, sys_set_tid_address, sys_restart_syscall, sys_semtimedop,
  sys_fadvise64, sys_timer_create, sys_timer_settime, sys_timer_gettime, sys_timer_getoverrun,
  sys_timer_delete, sys_clock_settime, sys_clock_gettime, sys_clock_getres, sys_clock_nanosleep,
  sys_exit_group, sys_epoll_wait, sys_epoll_ctl, sys_tgkill, sys_utimes, sys_vserver, sys_mbind,
  sys_set_mempolicy, sys_get_mempolicy, sys_mq_open, sys_mq_unlink, sys_mq_timedsend,
  sys_mq_timedreceive, sys_mq_notify, sys_mq_getsetattr, sys_kexec_load, sys_waitid, sys_add_key,
  sys_request_key, sys_keyctl, sys_ioprio_set, sys_ioprio_get, sys_inotify_init,
  sys_inotify_add_watch, sys_inotify_rm_watch, sys_migrate_pages, sys_openat, sys_mkdirat,
  sys_mknodat, sys_fchownat, sys_futimesat, sys_newfstatat, sys_unlinkat, sys_renameat, sys_linkat,
  sys_symlinkat, sys_readlinkat, sys_fchmodat, sys_faccessat, sys_pselect6, sys_ppoll, sys_unshare,
  sys_set_robust_list, sys_get_robust_list, sys_splice, sys_tee, sys_sync_file_range, sys_vmsplice,
  sys_move_pages, sys_utimensat, sys_epoll_pwait, sys_signalfd, sys_timerfd_create, sys_eventfd,
  sys_fallocate, sys_timerfd_settime, sys_timerfd_gettime, sys_accept4, sys_signalfd4, sys_eventfd2,
  sys_epoll_create1, sys_dup3, sys_pipe2, sys_inotify_init1, sys_preadv, sys_pwritev,
  sys_rt_tgsigqueueinfo, sys_perf_event_open, sys_recvmmsg, sys_fanotify_init, sys_fanotify_mark,
  sys_prlimit64, sys_name_to_handle_at, sys_open_by_handle_at, sys_clock_adjtime, sys_syncfs,
  sys_sendmmsg, sys_setns, sys_getcpu, sys_process_vm_readv, sys_process_vm_writev, sys_kcmp,
  sys_finit_module, sys_sched_setattr, sys_sched_getattr, sys_renameat2, sys_seccomp, sys_getrandom,
  sys_memfd_create, sys_kexec_file_load, sys_bpf, sys_execveat, sys_userfaultfd, sys_membarrier,
  sys_mlock2, sys_copy_file_range, sys_preadv2, sys_pwritev2, sys_pkey_mprotect, sys_pkey_alloc,
  sys_pkey_free,
}

unfoldable pub first_arms : List (Syscall × Syscall)
first_arms =
    (sys_read, sys_read)
    ∷ (sys_write, sys_write)
    ∷ (sys_open, sys_open)
    ∷ (sys_close, sys_close)
    ∷ (sys_stat, sys_stat)
    ∷ (sys_fstat, sys_fstat)
    ∷ (sys_lstat, sys_lstat)
    ∷ (sys_poll, sys_poll)
    ∷ (sys_lseek, sys_lseek)
    ∷ (sys_mmap, sys_mmap)
    ∷ (sys_mprotect, sys_mprotect)
    ∷ (sys_munmap, sys_munmap)
    ∷ (sys_brk, sys_brk)
    ∷ (sys_rt_sigaction, sys_rt_sigaction)
    ∷ (sys_rt_sigprocmask, sys_rt_sigprocmask)
    ∷ (sys_rt_sigreturn, sys_rt_sigreturn)
    ∷ (sys_ioctl, sys_ioctl)
    ∷ (sys_pread64, sys_pread64)
    ∷ (sys_pwrite64, sys_pwrite64)
    ∷ (sys_readv, sys_readv)
    ∷ (sys_writev, sys_writev)
    ∷ (sys_access, sys_access)
    ∷ (sys_pipe, sys_pipe)
    ∷ (sys_select, sys_select)
    ∷ (sys_sched_yield, sys_sched_yield)
    ∷ (sys_mremap, sys_mremap)
    ∷ (sys_msync, sys_msync)
    ∷ (sys_mincore, sys_mincore)
    ∷ (sys_madvise, sys_madvise)
    ∷ (sys_shmget, sys_shmget)
    ∷ (sys_shmat, sys_shmat)
    ∷ (sys_shmctl, sys_shmctl)
    ∷ (sys_dup, sys_dup)
    ∷ (sys_dup2, sys_dup2)
    ∷ (sys_pause, sys_pause)
    ∷ (sys_nanosleep, sys_nanosleep)
    ∷ (sys_getitimer, sys_getitimer)
    ∷ (sys_alarm, sys_alarm)
    ∷ (sys_setitimer, sys_setitimer)
    ∷ (sys_getpid, sys_getpid)
    ∷ (sys_sendfile, sys_sendfile)
    ∷ (sys_socket, sys_socket)
    ∷ (sys_connect, sys_connect)
    ∷ (sys_accept, sys_accept)
    ∷ (sys_sendto, sys_sendto)
    ∷ (sys_recvfrom, sys_recvfrom)
    ∷ (sys_sendmsg, sys_sendmsg)
    ∷ (sys_recvmsg, sys_recvmsg)
    ∷ (sys_shutdown, sys_shutdown)
    ∷ (sys_bind, sys_bind)
    ∷ (sys_listen, sys_listen)
    ∷ (sys_getsockname, sys_getsockname)
    ∷ (sys_getpeername, sys_getpeername)
    ∷ (sys_socketpair, sys_socketpair)
    ∷ (sys_setsockopt, sys_setsockopt)
    ∷ (sys_getsockopt, sys_getsockopt)
    ∷ (sys_clone, sys_clone)
    ∷ (sys_fork, sys_fork)
    ∷ (sys_vfork, sys_vfork)
    ∷ (sys_execve, sys_execve)
    ∷ (sys_exit, sys_exit)
    ∷ (sys_wait4, sys_wait4)
    ∷ (sys_kill, sys_kill)
    ∷ (sys_uname, sys_uname)
    ∷ (sys_semget, sys_semget)
    ∷ (sys_semop, sys_semop)
    ∷ (sys_semctl, sys_semctl)
    ∷ (sys_shmdt, sys_shmdt)
    ∷ (sys_msgget, sys_msgget)
    ∷ (sys_msgsnd, sys_msgsnd)
    ∷ (sys_msgrcv, sys_msgrcv)
    ∷ (sys_msgctl, sys_msgctl)
    ∷ (sys_fcntl, sys_fcntl)
    ∷ (sys_flock, sys_flock)
    ∷ (sys_fsync, sys_fsync)
    ∷ (sys_fdatasync, sys_fdatasync)
    ∷ (sys_truncate, sys_truncate)
    ∷ (sys_ftruncate, sys_ftruncate)
    ∷ (sys_getdents, sys_getdents)
    ∷ (sys_getcwd, sys_getcwd)
    ∷ (sys_chdir, sys_chdir)
    ∷ (sys_fchdir, sys_fchdir)
    ∷ (sys_rename, sys_rename)
    ∷ (sys_mkdir, sys_mkdir)
    ∷ (sys_rmdir, sys_rmdir)
    ∷ (sys_creat, sys_creat)
    ∷ (sys_link, sys_link)
    ∷ (sys_unlink, sys_unlink)
    ∷ (sys_symlink, sys_symlink)
    ∷ (sys_readlink, sys_readlink)
    ∷ (sys_chmod, sys_chmod)
    ∷ (sys_fchmod, sys_fchmod)
    ∷ (sys_chown, sys_chown)
    ∷ (sys_fchown, sys_fchown)
    ∷ (sys_lchown, sys_lchown)
    ∷ (sys_umask, sys_umask)
    ∷ (sys_gettimeofday, sys_gettimeofday)
    ∷ (sys_getrlimit, sys_getrlimit)
    ∷ (sys_getrusage, sys_getrusage)
    ∷ (sys_sysinfo, sys_sysinfo)
    ∷ (sys_times, sys_times)
    ∷ (sys_ptrace, sys_ptrace)
    ∷ (sys_getuid, sys_getuid)
    ∷ (sys_syslog, sys_syslog)
    ∷ (sys_getgid, sys_getgid)
    ∷ (sys_setuid, sys_setuid)
    ∷ (sys_setgid, sys_setgid)
    ∷ (sys_geteuid, sys_geteuid)
    ∷ (sys_getegid, sys_getegid)
    ∷ (sys_setpgid, sys_setpgid)
    ∷ (sys_getppid, sys_getppid)
    ∷ []

unfoldable pub middle_arms : List (Syscall × Syscall)
middle_arms =
    (sys_getpgrp, sys_getpgrp)
    ∷ (sys_setsid, sys_setsid)
    ∷ (sys_setreuid, sys_setreuid)
    ∷ (sys_setregid, sys_setregid)
    ∷ (sys_getgroups, sys_getgroups)
    ∷ (sys_setgroups, sys_setgroups)
    ∷ (sys_setresuid, sys_setresuid)
    ∷ (sys_getresuid, sys_getresuid)
    ∷ (sys_setresgid, sys_setresgid)
    ∷ (sys_getresgid, sys_getresgid)
    ∷ (sys_getpgid, sys_getpgid)
    ∷ (sys_setfsuid, sys_setfsuid)
    ∷ (sys_setfsgid, sys_setfsgid)
    ∷ (sys_getsid, sys_getsid)
    ∷ (sys_capget, sys_capget)
    ∷ (sys_capset, sys_capset)
    ∷ (sys_rt_sigpending, sys_rt_sigpending)
    ∷ (sys_rt_sigtimedwait, sys_rt_sigtimedwait)
    ∷ (sys_rt_sigqueueinfo, sys_rt_sigqueueinfo)
    ∷ (sys_rt_sigsuspend, sys_rt_sigsuspend)
    ∷ (sys_sigaltstack, sys_sigaltstack)
    ∷ (sys_utime, sys_utime)
    ∷ (sys_mknod, sys_mknod)
    ∷ (sys_uselib, sys_uselib)
    ∷ (sys_personality, sys_personality)
    ∷ (sys_ustat, sys_ustat)
    ∷ (sys_statfs, sys_statfs)
    ∷ (sys_fstatfs, sys_fstatfs)
    ∷ (sys_sysfs, sys_sysfs)
    ∷ (sys_getpriority, sys_getpriority)
    ∷ (sys_setpriority, sys_setpriority)
    ∷ (sys_sched_setparam, sys_sched_setparam)
    ∷ (sys_sched_getparam, sys_sched_getparam)
    ∷ (sys_sched_setscheduler, sys_sched_setscheduler)
    ∷ (sys_sched_getscheduler, sys_sched_getscheduler)
    ∷ (sys_sched_get_priority_max, sys_sched_get_priority_max)
    ∷ (sys_sched_get_priority_min, sys_sched_get_priority_min)
    ∷ (sys_sched_rr_get_interval, sys_sched_rr_get_interval)
    ∷ (sys_mlock, sys_mlock)
    ∷ (sys_munlock, sys_munlock)
    ∷ (sys_mlockall, sys_mlockall)
    ∷ (sys_munlockall, sys_munlockall)
    ∷ (sys_vhangup, sys_vhangup)
    ∷ (sys_modify_ldt, sys_modify_ldt)
    ∷ (sys_pivot_root, sys_pivot_root)
    ∷ (sys__sysctl, sys__sysctl)
    ∷ (sys_prctl, sys_prctl)
    ∷ (sys_arch_prctl, sys_arch_prctl)
    ∷ (sys_adjtimex, sys_adjtimex)
    ∷ (sys_setrlimit, sys_setrlimit)
    ∷ (sys_chroot, sys_chroot)
    ∷ (sys_sync, sys_sync)
    ∷ (sys_acct, sys_acct)
    ∷ (sys_settimeofday, sys_settimeofday)
    ∷ (sys_mount, sys_mount)
    ∷ (sys_umount2, sys_umount2)
    ∷ (sys_swapon, sys_swapon)
    ∷ (sys_swapoff, sys_swapoff)
    ∷ (sys_reboot, sys_reboot)
    ∷ (sys_sethostname, sys_sethostname)
    ∷ (sys_setdomainname, sys_setdomainname)
    ∷ (sys_iopl, sys_iopl)
    ∷ (sys_ioperm, sys_ioperm)
    ∷ (sys_create_module, sys_create_module)
    ∷ (sys_init_module, sys_init_module)
    ∷ (sys_delete_module, sys_delete_module)
    ∷ (sys_get_kernel_syms, sys_get_kernel_syms)
    ∷ (sys_query_module, sys_query_module)
    ∷ (sys_quotactl, sys_quotactl)
    ∷ (sys_nfsservctl, sys_nfsservctl)
    ∷ (sys_getpmsg, sys_getpmsg)
    ∷ (sys_putpmsg, sys_putpmsg)
    ∷ (sys_afs_syscall, sys_afs_syscall)
    ∷ (sys_tuxcall, sys_tuxcall)
    ∷ (sys_security, sys_security)
    ∷ (sys_gettid, sys_gettid)
    ∷ (sys_readahead, sys_readahead)
    ∷ (sys_setxattr, sys_setxattr)
    ∷ (sys_lsetxattr, sys_lsetxattr)
    ∷ (sys_fsetxattr, sys_fsetxattr)
    ∷ (sys_getxattr, sys_getxattr)
    ∷ (sys_lgetxattr, sys_lgetxattr)
    ∷ (sys_fgetxattr, sys_fgetxattr)
    ∷ (sys_listxattr, sys_listxattr)
    ∷ (sys_llistxattr, sys_llistxattr)
    ∷ (sys_flistxattr, sys_flistxattr)
    ∷ (sys_removexattr, sys_removexattr)
    ∷ (sys_lremovexattr, sys_lremovexattr)
    ∷ (sys_fremovexattr, sys_fremovexattr)
    ∷ (sys_tkill, sys_tkill)
    ∷ (sys_time, sys_time)
    ∷ (sys_futex, sys_futex)
    ∷ (sys_sched_setaffinity, sys_sched_setaffinity)
    ∷ (sys_sched_getaffinity, sys_sched_getaffinity)
    ∷ (sys_set_thread_area, sys_set_thread_area)
    ∷ (sys_io_setup, sys_io_setup)
    ∷ (sys_io_destroy, sys_io_destroy)
    ∷ (sys_io_getevents, sys_io_getevents)
    ∷ (sys_io_submit, sys_io_submit)
    ∷ (sys_io_cancel, sys_io_cancel)
    ∷ (sys_get_thread_area, sys_get_thread_area)
    ∷ (sys_lookup_dcookie, sys_lookup_dcookie)
    ∷ (sys_epoll_create, sys_epoll_create)
    ∷ (sys_epoll_ctl_old, sys_epoll_ctl_old)
    ∷ (sys_epoll_wait_old, sys_epoll_wait_old)
    ∷ (sys_remap_file_pages, sys_remap_file_pages)
    ∷ (sys_getdents64, sys_getdents64)
    ∷ (sys_set_tid_address, sys_set_tid_address)
    ∷ (sys_restart_syscall, sys_restart_syscall)
    ∷ (sys_semtimedop, sys_semtimedop)
    ∷ (sys_fadvise64, sys_fadvise64)
    ∷ []

unfoldable pub last_arms : List (Syscall × Syscall)
last_arms =
    (sys_timer_create, sys_timer_create)
    ∷ (sys_timer_settime, sys_timer_settime)
    ∷ (sys_timer_gettime, sys_timer_gettime)
    ∷ (sys_timer_getoverrun, sys_timer_getoverrun)
    ∷ (sys_timer_delete, sys_timer_delete)
    ∷ (sys_clock_settime, sys_clock_settime)
    ∷ (sys_clock_gettime, sys_clock_gettime)
    ∷ (sys_clock_getres, sys_clock_getres)
    ∷ (sys_clock_nanosleep, sys_clock_nanosleep)
    ∷ (sys_exit_group, sys_exit_group)
    ∷ (sys_epoll_wait, sys_epoll_wait)
    ∷ (sys_epoll_ctl, sys_epoll_ctl)
    ∷ (sys_tgkill, sys_tgkill)
    ∷ (sys_utimes, sys_utimes)
    ∷ (sys_vserver, sys_vserver)
    ∷ (sys_mbind, sys_mbind)
    ∷ (sys_set_mempolicy, sys_set_mempolicy)
    ∷ (sys_get_mempolicy, sys_get_mempolicy)
    ∷ (sys_mq_open, sys_mq_open)
    ∷ (sys_mq_unlink, sys_mq_unlink)
    ∷ (sys_mq_timedsend, sys_mq_timedsend)
    ∷ (sys_mq_timedreceive, sys_mq_timedreceive)
    ∷ (sys_mq_notify, sys_mq_notify)
    ∷ (sys_mq_getsetattr, sys_mq_getsetattr)
    ∷ (sys_kexec_load, sys_kexec_load)
    ∷ (sys_waitid, sys_waitid)
    ∷ (sys_add_key, sys_add_key)
    ∷ (sys_request_key, sys_request_key)
    ∷ (sys_keyctl, sys_keyctl)
    ∷ (sys_ioprio_set, sys_ioprio_set)
    ∷ (sys_ioprio_get, sys_ioprio_get)
    ∷ (sys_inotify_init, sys_inotify_init)
    ∷ (sys_inotify_add_watch, sys_inotify_add_watch)
    ∷ (sys_inotify_rm_watch, sys_inotify_rm_watch)
    ∷ (sys_migrate_pages, sys_migrate_pages)
    ∷ (sys_openat, sys_openat)
    ∷ (sys_mkdirat, sys_mkdirat)
    ∷ (sys_mknodat, sys_mknodat)
    ∷ (sys_fchownat, sys_fchownat)
    ∷ (sys_futimesat, sys_futimesat)
    ∷ (sys_newfstatat, sys_newfstatat)
    ∷ (sys_unlinkat, sys_unlinkat)
    ∷ (sys_renameat, sys_renameat)
    ∷ (sys_linkat, sys_linkat)
    ∷ (sys_symlinkat, sys_symlinkat)
    ∷ (sys_readlinkat, sys_readlinkat)
    ∷ (sys_fchmodat, sys_fchmodat)
    ∷ (sys_faccessat, sys_faccessat)
    ∷ (sys_pselect6, sys_pselect6)
    ∷ (sys_ppoll, sys_ppoll)
    ∷ (sys_unshare, sys_unshare)
    ∷ (sys_set_robust_list, sys_set_robust_list)
    ∷ (sys_get_robust_list, sys_get_robust_list)
    ∷ (sys_splice, sys_splice)
    ∷ (sys_tee, sys_tee)
    ∷ (sys_sync_file_range, sys_sync_file_range)
    ∷ (sys_vmsplice, sys_vmsplice)
    ∷ (sys_move_pages, sys_move_pages)
    ∷ (sys_utimensat, sys_utimensat)
    ∷ (sys_epoll_pwait, sys_epoll_pwait)
    ∷ (sys_signalfd, sys_signalfd)
    ∷ (sys_timerfd_create, sys_timerfd_create)
    ∷ (sys_eventfd, sys_eventfd)
    ∷ (sys_fallocate, sys_fallocate)
    ∷ (sys_timerfd_settime, sys_timerfd_settime)
    ∷ (sys_timerfd_gettime, sys_timerfd_gettime)
    ∷ (sys_accept4, sys_accept4)
    ∷ (sys_signalfd4, sys_signalfd4)
    ∷ (sys_eventfd2, sys_eventfd2)
    ∷ (sys_epoll_create1, sys_epoll_create1)
    ∷ (sys_dup3, sys_dup3)
    ∷ (sys_pipe2, sys_pipe2)
    ∷ (sys_inotify_init1, sys_inotify_init1)
    ∷ (sys_preadv, sys_preadv)
    ∷ (sys_pwritev, sys_pwritev)
    ∷ (sys_rt_tgsigqueueinfo, sys_rt_tgsigqueueinfo)
    ∷ (sys_perf_event_open, sys_perf_event_open)
    ∷ (sys_recvmmsg, sys_recvmmsg)
    ∷ (sys_fanotify_init, sys_fanotify_init)
    ∷ (sys_fanotify_mark, sys_fanotify_mark)
    ∷ (sys_prlimit64, sys_prlimit64)
    ∷ (sys_name_to_handle_at, sys_name_to_handle_at)
    ∷ (sys_open_by_handle_at, sys_open_by_handle_at)
    ∷ (sys_clock_adjtime, sys_clock_adjtime)
    ∷ (sys_syncfs, sys_syncfs)
    ∷ (sys_sendmmsg, sys_sendmmsg)
    ∷ (sys_setns, sys_setns)
    ∷ (sys_getcpu, sys_getcpu)
    ∷ (sys_process_vm_readv, sys_process_vm_readv)
    ∷ (sys_process_vm_writev, sys_process_vm_writev)
    ∷ (sys_kcmp, sys_kcmp)
    ∷ (sys_finit_module, sys_finit_module)
    ∷ (sys_sched_setattr, sys_sched_setattr)
    ∷ (sys_sched_getattr, sys_sched_getattr)
    ∷ (sys_renameat2, sys_renameat2)
    ∷ (sys_seccomp, sys_seccomp)
    ∷ (sys_getrandom, sys_getrandom)
    ∷ (sys_memfd_create, sys_memfd_create)
    ∷ (sys_kexec_file_load, sys_kexec_file_load)
    ∷ (sys_bpf, sys_bpf)
    ∷ (sys_execveat, sys_execveat)
    ∷ (sys_userfaultfd, sys_userfaultfd)
    ∷ (sys_membarrier, sys_membarrier)
    ∷ (sys_mlock2, sys_mlock2)
    ∷ (sys_copy_file_range, sys_copy_file_range)
    ∷ (sys_preadv2, sys_preadv2)
    ∷ (sys_pwritev2, sys_pwritev2)
    ∷ (sys_pkey_mprotect, sys_pkey_mprotect)
    ∷ (sys_pkey_alloc, sys_pkey_alloc)
    ∷ (sys_pkey_free, sys_pkey_free)
    ∷ []
