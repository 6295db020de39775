-- ===== src/Syscall.antt =====
-- tracer/syscall.rs: the system calls by name, and the number in `orig_rax` read as one of them.
pub mod Table
pub mod Code
pub mod Place
pub mod Named
use check_protocols.Prelude.{ℕ}

pub data Syscall : Type 0 where
  sys_read sys_write sys_open sys_close sys_stat sys_fstat sys_lstat sys_poll sys_lseek sys_mmap :
      Syscall
  sys_mprotect sys_munmap sys_brk sys_rt_sigaction sys_rt_sigprocmask sys_rt_sigreturn sys_ioctl :
      Syscall
  sys_pread64 sys_pwrite64 sys_readv sys_writev sys_access sys_pipe sys_select sys_sched_yield :
      Syscall
  sys_mremap sys_msync sys_mincore sys_madvise sys_shmget sys_shmat sys_shmctl sys_dup sys_dup2 :
      Syscall
  sys_pause sys_nanosleep sys_getitimer sys_alarm sys_setitimer sys_getpid sys_sendfile : Syscall
  sys_socket sys_connect sys_accept sys_sendto sys_recvfrom sys_sendmsg sys_recvmsg sys_shutdown :
      Syscall
  sys_bind sys_listen sys_getsockname sys_getpeername sys_socketpair sys_setsockopt : Syscall
  sys_getsockopt sys_clone sys_fork sys_vfork sys_execve sys_exit sys_wait4 sys_kill sys_uname :
      Syscall
  sys_semget sys_semop sys_semctl sys_shmdt sys_msgget sys_msgsnd sys_msgrcv sys_msgctl sys_fcntl :
      Syscall
  sys_flock sys_fsync sys_fdatasync sys_truncate sys_ftruncate sys_getdents sys_getcwd sys_chdir :
      Syscall
  sys_fchdir sys_rename sys_mkdir sys_rmdir sys_creat sys_link sys_unlink sys_symlink : Syscall
  sys_readlink sys_chmod sys_fchmod sys_chown sys_fchown sys_lchown sys_umask sys_gettimeofday :
      Syscall
  sys_getrlimit sys_getrusage sys_sysinfo sys_times sys_ptrace sys_getuid sys_syslog sys_getgid :
      Syscall
  sys_setuid sys_setgid sys_geteuid sys_getegid sys_setpgid sys_getppid sys_getpgrp sys_setsid :
      Syscall
  sys_setreuid sys_setregid sys_getgroups sys_setgroups sys_setresuid sys_getresuid sys_setresgid :
      Syscall
  sys_getresgid sys_getpgid sys_setfsuid sys_setfsgid sys_getsid sys_capget sys_capset : Syscall
  sys_rt_sigpending sys_rt_sigtimedwait sys_rt_sigqueueinfo sys_rt_sigsuspend sys_sigaltstack :
      Syscall
  sys_utime sys_mknod sys_uselib sys_personality sys_ustat sys_statfs sys_fstatfs sys_sysfs :
      Syscall
  sys_getpriority sys_setpriority sys_sched_setparam sys_sched_getparam sys_sched_setscheduler :
      Syscall
  sys_sched_getscheduler sys_sched_get_priority_max sys_sched_get_priority_min : Syscall
  sys_sched_rr_get_interval sys_mlock sys_munlock sys_mlockall sys_munlockall sys_vhangup : Syscall
  sys_modify_ldt sys_pivot_root sys__sysctl sys_prctl sys_arch_prctl sys_adjtimex sys_setrlimit :
      Syscall
  sys_chroot sys_sync sys_acct sys_settimeofday sys_mount sys_umount2 sys_swapon sys_swapoff :
      Syscall
  sys_reboot sys_sethostname sys_setdomainname sys_iopl sys_ioperm sys_create_module : Syscall
  sys_init_module sys_delete_module sys_get_kernel_syms sys_query_module sys_quotactl : Syscall
  sys_nfsservctl sys_getpmsg sys_putpmsg sys_afs_syscall sys_tuxcall sys_security sys_gettid :
      Syscall
  sys_readahead sys_setxattr sys_lsetxattr sys_fsetxattr sys_getxattr sys_lgetxattr sys_fgetxattr :
      Syscall
  sys_listxattr sys_llistxattr sys_flistxattr sys_removexattr sys_lremovexattr sys_fremovexattr :
      Syscall
  sys_tkill sys_time sys_futex sys_sched_setaffinity sys_sched_getaffinity sys_set_thread_area :
      Syscall
  sys_io_setup sys_io_destroy sys_io_getevents sys_io_submit sys_io_cancel sys_get_thread_area :
      Syscall
  sys_lookup_dcookie sys_epoll_create sys_epoll_ctl_old sys_epoll_wait_old sys_remap_file_pages :
      Syscall
  sys_getdents64 sys_set_tid_address sys_restart_syscall sys_semtimedop sys_fadvise64 : Syscall
  sys_timer_create sys_timer_settime sys_timer_gettime sys_timer_getoverrun sys_timer_delete :
      Syscall
  sys_clock_settime sys_clock_gettime sys_clock_getres sys_clock_nanosleep sys_exit_group : Syscall
  sys_epoll_wait sys_epoll_ctl sys_tgkill sys_utimes sys_vserver sys_mbind sys_set_mempolicy :
      Syscall
  sys_get_mempolicy sys_mq_open sys_mq_unlink sys_mq_timedsend sys_mq_timedreceive sys_mq_notify :
      Syscall
  sys_mq_getsetattr sys_kexec_load sys_waitid sys_add_key sys_request_key sys_keyctl : Syscall
  sys_ioprio_set sys_ioprio_get sys_inotify_init sys_inotify_add_watch sys_inotify_rm_watch :
      Syscall
  sys_migrate_pages sys_openat sys_mkdirat sys_mknodat sys_fchownat sys_futimesat sys_newfstatat :
      Syscall
  sys_unlinkat sys_renameat sys_linkat sys_symlinkat sys_readlinkat sys_fchmodat sys_faccessat :
      Syscall
  sys_pselect6 sys_ppoll sys_unshare sys_set_robust_list sys_get_robust_list sys_splice sys_tee :
      Syscall
  sys_sync_file_range sys_vmsplice sys_move_pages sys_utimensat sys_epoll_pwait sys_signalfd :
      Syscall
  sys_timerfd_create sys_eventfd sys_fallocate sys_timerfd_settime sys_timerfd_gettime : Syscall
  sys_accept4 sys_signalfd4 sys_eventfd2 sys_epoll_create1 sys_dup3 sys_pipe2 sys_inotify_init1 :
      Syscall
  sys_preadv sys_pwritev sys_rt_tgsigqueueinfo sys_perf_event_open sys_recvmmsg sys_fanotify_init :
      Syscall
  sys_fanotify_mark sys_prlimit64 sys_name_to_handle_at sys_open_by_handle_at sys_clock_adjtime :
      Syscall
  sys_syncfs sys_sendmmsg sys_setns sys_getcpu sys_process_vm_readv sys_process_vm_writev : Syscall
  sys_kcmp sys_finit_module sys_sched_setattr sys_sched_getattr sys_renameat2 sys_seccomp : Syscall
  sys_getrandom sys_memfd_create sys_kexec_file_load sys_bpf sys_execveat sys_userfaultfd : Syscall
  sys_membarrier sys_mlock2 sys_copy_file_range sys_preadv2 sys_pwritev2 sys_pkey_mprotect : Syscall
  sys_pkey_alloc sys_pkey_free : Syscall
  unknown : ℕ → Syscall
