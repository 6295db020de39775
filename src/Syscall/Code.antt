-- ===== src/Syscall/Code.antt =====
-- The derived `PartialEq` of `Syscall`: the place of a name in the enumeration, and equality of it.
use check_protocols.Prelude.{ℕ, ◌+◌, Bool, ◌==◌}
use check_protocols.Syscall.{
  Syscall, sys_read, sys_write, sys_open, sys_close, sys_stat, sys_fstat, sys_lstat, sys_poll,
  sys_lseek, sys_mmap, sys_mprotect, sys_munmap, sys_brk, sys_rt_sigaction, sys_rt_sigprocmask,
  sys_rt_sigreturn, sys_ioctl, sys_pread64, sys_pwrite64, sys_readv, sys_writev, sys_access,
  sys_pipe, sys_select, sys_sched_yield, sys_mremap, sys_msync, sys_mincore, sys_madvise,
  sys_shmget, sys_shmat, sys_shmctl, sys_dup, sys_dup2, sys_pause, sys_nanosleep, sys_getitimer,
  sys_alarm, sys_setitimer, sys_getpid, sys_sendfile, sys_socket, sys_connect, sys_accept,
  sys_sendto, sys_recvfrom, sys_sendmsg, sys_recvmsg, sys_shutdown, sys_bind, sys_listen,
  sys_getsockname, sys_getpeername, sys_socketpair, sys_setsockopt, sys_getsockopt, sys_clone,
  sys_fork, sys_vfork, sys_execve, sys_exit, sys_wait4, sys_kill, sys_uname, sys_semget, sys_semop,
  sys_semctl, sys_shmdt, sys_msgget, sys_msgsnd, sys_msgrcv, sys_msgctl, sys_fcntl, sys_flock,
  sys_fsync, sys_fdatasync, sys_truncate, sys_ftruncate, sys_getdents, sys_getcwd, sys_chdir,
  sys_fchdir, sys_rename, sys_mkdir, sys_rmdir, sys_creat, sys_link, sys_unlink, sys_symlink,
  sys_readlink, sys_chmod, sys_fchmod, sys_chown, sys_fchown, sys_lchown, sys_umask,
  sys_gettimeofday, sys_getrlimit, sys_getrusage, sys_sysinfo, sys_times, sys_ptrace, sys_getuid,
  sys_syslog, sys_getgid, sys_setuid, sys_setgid, sys_geteuid, sys_getegid, sys_setpgid,
  sys_getppid, sys_getpgrp, sys_setsid, sys_setreuid, sys_setregid, sys_getgroups, sys_setgroups,
  sys_setresuid, sys_getresuid, sys_setresgid, sys_getresgid, sys_getpgid, sys_setfsuid,
  sys_setfsgid, sys_getsid, sys_capget, sys_capset, sys_rt_sigpending, sys_rt_sigtimedwait,
  sys_rt_sigqueueinfo, sys_rt_sigsuspend, sys_sigaltstack, sys_utime, sys_mknod, sys_uselib,
  sys_personality, sys_ustat, sys_statfs, sys_fstatfs, sys_sysfs, sys_getpriority, sys_setpriority,
  sys_sched_setparam, sys_sched_getparam, sys_sched_setscheduler, sys_sched_getscheduler,
  sys_sched_get_priority_max, sys_sched_get_priority_min, sys_sched_rr_get_interval, sys_mlock,
  sys_munlock, sys_mlockall, sys_munlockall, sys_vhangup, sys_modify_ldt, sys_pivot_root,
  sys__sysctl, sys_prctl, sys_arch_prctl, sys_adjtimex, sys_setrlimit, sys_chroot, sys_sync,
  sys_acct, sys_settimeofday, sys_mount, sys_umount2, sys_swapon, sys_swapoff, sys_reboot,
  sys_sethostname, sys_setdomainname, sys_iopl, sys_ioperm, sys_create_module, sys_init_module,
  sys_delete_module, sys_get_kernel_syms, sys_query_module, sys_quotactl, sys_nfsservctl,
  sys_getpmsg, sys_putpmsg, sys_afs_syscall, sys_tuxcall, sys_security, sys_gettid, sys_readahead,
  sys_setxattr, sys_lsetxattr, sys_fsetxattr, sys_getxattr, sys_lgetxattr, sys_fgetxattr,
  sys_listxattr, sys_llistxattr, sys_flistxattr, sys_removexattr, sys_lremovexattr,
  sys_fremovexattr, sys_tkill, sys_time, sys_futex, sys_sched_setaffinity, sys_sched_getaffinity,
  sys_set_thread_area, sys_io_setup, sys_io_destroy, sys_io_getevents, sys_io_submit, sys_io_cancel,
  sys_get_thread_area, sys_lookup_dcookie, sys_epoll_create, sys_epoll_ctl_old, sys_epoll_wait_old,
  sys_remap_file_pages, sys_getdents64, sys_set_tid_address, sys_restart_syscall, sys_semtimedop,
  sys_fadvise64, sys_timer_create, sys_timer_settime, sys_timer_gettime, sys_timer_getoverrun,
  sys_timer_delete, sys_clock_settime, sys_clock_gettime, sys_clock_getres, sys_clock_nanosleep,
  sys_exit_group, sys_epoll_wait, sys_epoll_ctl, sys_tgkill, sys_utimes, sys_vserver, sys_mbind,
  sys_set_mempolicy, sys_get_mempolicy, sys_mq_open, sys_mq_unlink, sys_mq_timedsend,
  sys_mq_timedreceive, sys_mq_notify, sys_mq_getsetattr, sys_kexec_load, sys_waitid, sys_add_key,
  sys_request_key, sys_keyctl, sys_ioprio_set, sys_ioprio_get, sys_inotify_init,
  sys_inotify_add_watch, sys_inotify_rm_watch, sys_migrate_pages, sys_openat, sys_mkdirat,
  sys_mknodat, sys_fchownat, sys_futimesat, sys_newfstatat, sys_unlinkat, sys_renameat, sys_linkat,
  sys_symlinkat, sys_readlinkat, sys_fchmodat, sys_faccessat, sys_pselect6, sys_ppoll, sys_unshare,
  sys_set_robust_list, sys_get_robust_list, sys_splice, sys_tee, sys_sync_file_range, sys_vmsplice,
  sys_move_pages, sys_utimensat, sys_epoll_pwait, sys_signalfd, sys_timerfd_create, sys_eventfd,
  sys_fallocate, sys_timerfd_settime, sys_timerfd_gettime, sys_accept4, sys_signalfd4, sys_eventfd2,
  sys_epoll_create1, sys_dup3, sys_pipe2, sys_inotify_init1, sys_preadv, sys_pwritev,
  sys_rt_tgsigqueueinfo, sys_perf_event_open, sys_recvmmsg, sys_fanotify_init, sys_fanotify_mark,
  sys_prlimit64, sys_name_to_handle_at, sys_open_by_handle_at, sys_clock_adjtime, sys_syncfs,
  sys_sendmmsg, sys_setns, sys_getcpu, sys_process_vm_readv, sys_process_vm_writev, sys_kcmp,
  sys_finit_module, sys_sched_setattr, sys_sched_getattr, sys_renameat2, sys_seccomp, sys_getrandom,
  sys_memfd_create, sys_kexec_file_load, sys_bpf, sys_execveat, sys_userfaultfd, sys_membarrier,
  sys_mlock2, sys_copy_file_range, sys_preadv2, sys_pwritev2, sys_pkey_mprotect, sys_pkey_alloc,
  sys_pkey_free, unknown,
}

unfoldable pub discriminant : Syscall → ℕ
discriminant sys_read = 0
discriminant sys_write = 1
discriminant sys_open = 2
discriminant sys_close = 3
discriminant sys_stat = 4
discriminant sys_fstat = 5
discriminant sys_lstat = 6
discriminant sys_poll = 7
discriminant sys_lseek = 8
discriminant sys_mmap = 9
discriminant sys_mprotect = 10
discriminant sys_munmap = 11
discriminant sys_brk = 12
discriminant sys_rt_sigaction = 13
discriminant sys_rt_sigprocmask = 14
discriminant sys_rt_sigreturn = 15
discriminant sys_ioctl = 16
discriminant sys_pread64 = 17
discriminant sys_pwrite64 = 18
discriminant sys_readv = 19
discriminant sys_writev = 20
discriminant sys_access = 21
discriminant sys_pipe = 22
discriminant sys_select = 23
discriminant sys_sched_yield = 24
discriminant sys_mremap = 25
discriminant sys_msync = 26
discriminant sys_mincore = 27
discriminant sys_madvise = 28
discriminant sys_shmget = 29
discriminant sys_shmat = 30
discriminant sys_shmctl = 31
discriminant sys_dup = 32
discriminant sys_dup2 = 33
discriminant sys_pause = 34
discriminant sys_nanosleep = 35
discriminant sys_getitimer = 36
discriminant sys_alarm = 37
discriminant sys_setitimer = 38
discriminant sys_getpid = 39
discriminant sys_sendfile = 40
discriminant sys_socket = 41
discriminant sys_connect = 42
discriminant sys_accept = 43
discriminant sys_sendto = 44
discriminant sys_recvfrom = 45
discriminant sys_sendmsg = 46
discriminant sys_recvmsg = 47
discriminant sys_shutdown = 48
discriminant sys_bind = 49
discriminant sys_listen = 50
discriminant sys_getsockname = 51
discriminant sys_getpeername = 52
discriminant sys_socketpair = 53
discriminant sys_setsockopt = 54
discriminant sys_getsockopt = 55
discriminant sys_clone = 56
discriminant sys_fork = 57
discriminant sys_vfork = 58
discriminant sys_execve = 59
discriminant sys_exit = 60
discriminant sys_wait4 = 61
discriminant sys_kill = 62
discriminant sys_uname = 63
discriminant sys_semget = 64
discriminant sys_semop = 65
discriminant sys_semctl = 66
discriminant sys_shmdt = 67
discriminant sys_msgget = 68
discriminant sys_msgsnd = 69
discriminant sys_msgrcv = 70
discriminant sys_msgctl = 71
discriminant sys_fcntl = 72
discriminant sys_flock = 73
discriminant sys_fsync = 74
discriminant sys_fdatasync = 75
discriminant sys_truncate = 76
discriminant sys_ftruncate = 77
discriminant sys_getdents = 78
discriminant sys_getcwd = 79
discriminant sys_chdir = 80
discriminant sys_fchdir = 81
discriminant sys_rename = 82
discriminant sys_mkdir = 83
discriminant sys_rmdir = 84
discriminant sys_creat = 85
discriminant sys_link = 86
discriminant sys_unlink = 87
discriminant sys_symlink = 88
discriminant sys_readlink = 89
discriminant sys_chmod = 90
discriminant sys_fchmod = 91
discriminant sys_chown = 92
discriminant sys_fchown = 93
discriminant sys_lchown = 94
discriminant sys_umask = 95
discriminant sys_gettimeofday = 96
discriminant sys_getrlimit = 97
discriminant sys_getrusage = 98
discriminant sys_sysinfo = 99
discriminant sys_times = 100
discriminant sys_ptrace = 101
discriminant sys_getuid = 102
discriminant sys_syslog = 103
discriminant sys_getgid = 104
discriminant sys_setuid = 105
discriminant sys_setgid = 106
discriminant sys_geteuid = 107
discriminant sys_getegid = 108
discriminant sys_setpgid = 109
discriminant sys_getppid = 110
discriminant sys_getpgrp = 111
discriminant sys_setsid = 112
discriminant sys_setreuid = 113
discriminant sys_setregid = 114
discriminant sys_getgroups = 115
discriminant sys_setgroups = 116
discriminant sys_setresuid = 117
discriminant sys_getresuid = 118
discriminant sys_setresgid = 119
discriminant sys_getresgid = 120
discriminant sys_getpgid = 121
discriminant sys_setfsuid = 122
discriminant sys_setfsgid = 123
discriminant sys_getsid = 124
discriminant sys_capget = 125
discriminant sys_capset = 126
discriminant sys_rt_sigpending = 127
discriminant sys_rt_sigtimedwait = 128
discriminant sys_rt_sigqueueinfo = 129
discriminant sys_rt_sigsuspend = 130
discriminant sys_sigaltstack = 131
discriminant sys_utime = 132
discriminant sys_mknod = 133
discriminant sys_uselib = 134
discriminant sys_personality = 135
discriminant sys_ustat = 136
discriminant sys_statfs = 137
discriminant sys_fstatfs = 138
discriminant sys_sysfs = 139
discriminant sys_getpriority = 140
discriminant sys_setpriority = 141
discriminant sys_sched_setparam = 142
discriminant sys_sched_getparam = 143
discriminant sys_sched_setscheduler = 144
discriminant sys_sched_getscheduler = 145
discriminant sys_sched_get_priority_max = 146
discriminant sys_sched_get_priority_min = 147
discriminant sys_sched_rr_get_interval = 148
discriminant sys_mlock = 149
discriminant sys_munlock = 150
discriminant sys_mlockall = 151
discriminant sys_munlockall = 152
discriminant sys_vhangup = 153
discriminant sys_modify_ldt = 154
discriminant sys_pivot_root = 155
discriminant sys__sysctl = 156
discriminant sys_prctl = 157
discriminant sys_arch_prctl = 158
discriminant sys_adjtimex = 159
discriminant sys_setrlimit = 160
discriminant sys_chroot = 161
discriminant sys_sync = 162
discriminant sys_acct = 163
discriminant sys_settimeofday = 164
discriminant sys_mount = 165
discriminant sys_umount2 = 166
discriminant sys_swapon = 167
discriminant sys_swapoff = 168
discriminant sys_reboot = 169
discriminant sys_sethostname = 170
discriminant sys_setdomainname = 171
discriminant sys_iopl = 172
discriminant sys_ioperm = 173
discriminant sys_create_module = 174
discriminant sys_init_module = 175
discriminant sys_delete_module = 176
discriminant sys_get_kernel_syms = 177
discriminant sys_query_module = 178
discriminant sys_quotactl = 179
discriminant sys_nfsservctl = 180
discriminant sys_getpmsg = 181
discriminant sys_putpmsg = 182
discriminant sys_afs_syscall = 183
discriminant sys_tuxcall = 184
discriminant sys_security = 185
discriminant sys_gettid = 186
discriminant sys_readahead = 187
discriminant sys_setxattr = 188
discriminant sys_lsetxattr = 189
discriminant sys_fsetxattr = 190
discriminant sys_getxattr = 191
discriminant sys_lgetxattr = 192
discriminant sys_fgetxattr = 193
discriminant sys_listxattr = 194
discriminant sys_llistxattr = 195
discriminant sys_flistxattr = 196
discriminant sys_removexattr = 197
discriminant sys_lremovexattr = 198
discriminant sys_fremovexattr = 199
discriminant sys_tkill = 200
discriminant sys_time = 201
discriminant sys_futex = 202
discriminant sys_sched_setaffinity = 203
discriminant sys_sched_getaffinity = 204
discriminant sys_set_thread_area = 205
discriminant sys_io_setup = 206
discriminant sys_io_destroy = 207
discriminant sys_io_getevents = 208
discriminant sys_io_submit = 209
discriminant sys_io_cancel = 210
discriminant sys_get_thread_area = 211
discriminant sys_lookup_dcookie = 212
discriminant sys_epoll_create = 213
discriminant sys_epoll_ctl_old = 214
discriminant sys_epoll_wait_old = 215
discriminant sys_remap_file_pages = 216
discriminant sys_getdents64 = 217
discriminant sys_set_tid_address = 218
discriminant sys_restart_syscall = 219
discriminant sys_semtimedop = 220
discriminant sys_fadvise64 = 221
discriminant sys_timer_create = 222
discriminant sys_timer_settime = 223
discriminant sys_timer_gettime = 224
discriminant sys_timer_getoverrun = 225
discriminant sys_timer_delete = 226
discriminant sys_clock_settime = 227
discriminant sys_clock_gettime = 228
discriminant sys_clock_getres = 229
discriminant sys_clock_nanosleep = 230
discriminant sys_exit_group = 231
discriminant sys_epoll_wait = 232
discriminant sys_epoll_ctl = 233
discriminant sys_tgkill = 234
discriminant sys_utimes = 235
discriminant sys_vserver = 236
discriminant sys_mbind = 237
discriminant sys_set_mempolicy = 238
discriminant sys_get_mempolicy = 239
discriminant sys_mq_open = 240
discriminant sys_mq_unlink = 241
discriminant sys_mq_timedsend = 242
discriminant sys_mq_timedreceive = 243
discriminant sys_mq_notify = 244
discriminant sys_mq_getsetattr = 245
discriminant sys_kexec_load = 246
discriminant sys_waitid = 247
discriminant sys_add_key = 248
discriminant sys_request_key = 249
discriminant sys_keyctl = 250
discriminant sys_ioprio_set = 251
discriminant sys_ioprio_get = 252
discriminant sys_inotify_init = 253
discriminant sys_inotify_add_watch = 254
discriminant sys_inotify_rm_watch = 255
discriminant sys_migrate_pages = 256
discriminant sys_openat = 257
discriminant sys_mkdirat = 258
discriminant sys_mknodat = 259
discriminant sys_fchownat = 260
discriminant sys_futimesat = 261
discriminant sys_newfstatat = 262
discriminant sys_unlinkat = 263
discriminant sys_renameat = 264
discriminant sys_linkat = 265
discriminant sys_symlinkat = 266
discriminant sys_readlinkat = 267
discriminant sys_fchmodat = 268
discriminant sys_faccessat = 269
discriminant sys_pselect6 = 270
discriminant sys_ppoll = 271
discriminant sys_unshare = 272
discriminant sys_set_robust_list = 273
discriminant sys_get_robust_list = 274
discriminant sys_splice = 275
discriminant sys_tee = 276
discriminant sys_sync_file_range = 277
discriminant sys_vmsplice = 278
discriminant sys_move_pages = 279
discriminant sys_utimensat = 280
discriminant sys_epoll_pwait = 281
discriminant sys_signalfd = 282
discriminant sys_timerfd_create = 283
discriminant sys_eventfd = 284
discriminant sys_fallocate = 285
discriminant sys_timerfd_settime = 286
discriminant sys_timerfd_gettime = 287
discriminant sys_accept4 = 288
discriminant sys_signalfd4 = 289
discriminant sys_eventfd2 = 290
discriminant sys_epoll_create1 = 291
discriminant sys_dup3 = 292
discriminant sys_pipe2 = 293
discriminant sys_inotify_init1 = 294
discriminant sys_preadv = 295
discriminant sys_pwritev = 296
discriminant sys_rt_tgsigqueueinfo = 297
discriminant sys_perf_event_open = 298
discriminant sys_recvmmsg = 299
discriminant sys_fanotify_init = 300
discriminant sys_fanotify_mark = 301
discriminant sys_prlimit64 = 302
discriminant sys_name_to_handle_at = 303
discriminant sys_open_by_handle_at = 304
discriminant sys_clock_adjtime = 305
discriminant sys_syncfs = 306
discriminant sys_sendmmsg = 307
discriminant sys_setns = 308
discriminant sys_getcpu = 309
discriminant sys_process_vm_readv = 310
discriminant sys_process_vm_writev = 311
discriminant sys_kcmp = 312
discriminant sys_finit_module = 313
discriminant sys_sched_setattr = 314
discriminant sys_sched_getattr = 315
discriminant sys_renameat2 = 316
discriminant sys_seccomp = 317
discriminant sys_getrandom = 318
discriminant sys_memfd_create = 319
discriminant sys_kexec_file_load = 320
discriminant sys_bpf = 321
discriminant sys_execveat = 322
discriminant sys_userfaultfd = 323
discriminant sys_membarrier = 324
discriminant sys_mlock2 = 325
discriminant sys_copy_file_range = 326
discriminant sys_preadv2 = 327
discriminant sys_pwritev2 = 328
discriminant sys_pkey_mprotect = 329
discriminant sys_pkey_alloc = 330
discriminant sys_pkey_free = 331
discriminant (unknown n) = 332 + n

unfoldable pub same : Syscall → Syscall → Bool
same s t = discriminant s == discriminant t
