-- ===== src/Redis/Messages.antt =====
-- services/redis/messages.go: the sections of INFO, line by line.
use honeytrap.Base.{[], ◌∷◌, ◌++◌}
use Prim.Native.String.{String}
use honeytrap.Base.Text.{Text, codes}

-- The options of the service.
pub record Config : Type 0 where
  pub version : Text
  pub os : Text

-- A line of text with its line feed.
abbrev row : String → Text
row s = codes s ++ (10 ∷ [])

unfoldable pub info_server_msg : Config → Text
info_server_msg config =
    row "# Server"
    ++ ((codes "redis_version:" ++ (config.version ++ (10 ∷ [])))
        ++ (row "redis_git_sha1:00000000"
            ++ (row "redis_git_dirty:0"
                ++ (row "redis_build_id:f1060845dd32471a"
                    ++ (row "redis_mode:standalone"
                        ++ ((codes "os:" ++ (config.os ++ (10 ∷ [])))
                            ++ (row "arch_bits:64"
                                ++ (row "multiplexing_api:epoll"
                                    ++ (row "atomicvar_api:atomic-builtin"
                                        ++ (row "gcc_version:4.9.2"
                                            ++ (row "process_id:1"
                                                ++ (row
                                                      "run_id:15444ca686daa4cfcf621e65a7aed097110bb598"
                                                    ++ (row "tcp_port:6379"
                                                        ++ (row "uptime_in_seconds:10396"
                                                            ++ (row "uptime_in_days:0"
                                                            ++ (row "hz:10"
                                                            ++ (row "lru_clock:5820570"
                                                            ++ (row "executable:/data/redis-server"
                                                            ++ (row "config_file:"
                                                            ++ (row ""))))))))))))))))))))

unfoldable pub info_clients_msg : Text
info_clients_msg =
    row "# Clients"
    ++ (row "connected_clients:0"
        ++ (row "client_longest_output_list:0"
            ++ (row "client_biggest_input_buf:0" ++ (row "blocked_clients:0" ++ (row "")))))

unfoldable pub info_memory_msg : Text
info_memory_msg =
    row "# Memory"
    ++ (row "used_memory:1828264"
        ++ (row "used_memory_human:808.85K"
            ++ (row "used_memory_rss:4120576"
                ++ (row "used_memory_rss_human:3.93M"
                    ++ (row "used_memory_peak:828264"
                        ++ (row "used_memory_peak_human:808.85K"
                            ++ (row "used_memory_peak_perc:100.00%"
                                ++ (row "used_memory_overhead:815150"
                                    ++ (row "used_memory_startup:765520"
                                        ++ (row "used_memory_dataset:13114"
                                            ++ (row "used_memory_dataset_perc:20.90%"
                                                ++ (row "total_system_memory:2096160768"
                                                    ++ (row "total_system_memory_human:1.95G"
                                                        ++ (row "used_memory_lua:37888"
                                                            ++ (row "used_memory_lua_human:37.00K"
                                                            ++ (row "maxmemory:0"
                                                            ++ (row "maxmemory_human:0B"
                                                            ++ (row "maxmemory_policy:noeviction"
                                                            ++ (row "mem_fragmentation_ratio:4.97"
                                                            ++ (row "mem_allocator:jemalloc-4.0.3"
                                                            ++ (row "active_defrag_running:0"
                                                            ++ (row "lazyfree_pending_objects:0"
                                                            ++ (row "")))))))))))))))))))))))

unfoldable pub info_persistence_msg : Text
info_persistence_msg =
    row "# Persistence"
    ++ (row "loading:0"
        ++ (row "rdb_changes_since_last_save:0"
            ++ (row "rdb_bgsave_in_progress:0"
                ++ (row "rdb_last_save_time:1515759614"
                    ++ (row "rdb_last_bgsave_status:ok"
                        ++ (row "rdb_last_bgsave_time_sec:-1"
                            ++ (row "rdb_current_bgsave_time_sec:-1"
                                ++ (row "rdb_last_cow_size:0"
                                    ++ (row "aof_enabled:0"
                                        ++ (row "aof_rewrite_in_progress:0"
                                            ++ (row "aof_rewrite_scheduled:0"
                                                ++ (row "aof_last_rewrite_time_sec:-1"
                                                    ++ (row "aof_current_rewrite_time_sec:-1"
                                                        ++ (row "aof_last_bgrewrite_status:ok"
                                                            ++ (row "aof_last_write_status:ok"
                                                            ++ (row "aof_last_cow_size:0"
                                                            ++ (row "")))))))))))))))))

unfoldable pub info_stats_msg : Text
info_stats_msg =
    row "total_connections_received:2"
    ++ (row "total_commands_processed:1"
        ++ (row "instantaneous_ops_per_sec:0"
            ++ (row "total_net_input_bytes:14"
                ++ (row "total_net_output_bytes:2664"
                    ++ (row "instantaneous_input_kbps:0.00"
                        ++ (row "instantaneous_output_kbps:0.00"
                            ++ (row "rejected_connections:0"
                                ++ (row "sync_full:0"
                                    ++ (row "sync_partial_ok:0"
                                        ++ (row "sync_partial_err:0"
                                            ++ (row "expired_keys:0"
                                                ++ (row "evicted_keys:0"
                                                    ++ (row "keyspace_hits:0"
                                                        ++ (row "keyspace_misses:0"
                                                            ++ (row "pubsub_channels:0"
                                                            ++ (row "pubsub_patterns:0"
                                                            ++ (row "latest_fork_usec:0"
                                                            ++ (row "migrate_cached_sockets:0"
                                                            ++ (row "slave_expires_tracked_keys:0"
                                                            ++ (row "active_defrag_hits:0"
                                                            ++ (row "active_defrag_misses:0"
                                                            ++ (row "active_defrag_key_hits:0"
                                                            ++ (row "active_defrag_key_misses:0"
                                                            ++ (row ""))))))))))))))))))))))))

unfoldable pub info_replication_msg : Text
info_replication_msg =
    row "# Replication"
    ++ (row "role:master"
        ++ (row "connected_slaves:0"
            ++ (row "master_replid:29e814284ae0619c1b2c09175f4b5b6a5aafff48"
                ++ (row "master_replid2:0000000000000000000000000000000000000000"
                    ++ (row "master_repl_offset:0"
                        ++ (row "second_repl_offset:-1"
                            ++ (row "repl_backlog_active:0"
                                ++ (row "repl_backlog_size:1048576"
                                    ++ (row "repl_backlog_first_byte_offset:0"
                                        ++ (row "repl_backlog_histlen:0" ++ (row "")))))))))))

unfoldable pub info_cpu_msg : Text
info_cpu_msg =
    row "# CPU"
    ++ (row "used_cpu_sys:20.83"
        ++ (row "used_cpu_user:3.02"
            ++ (row "used_cpu_sys_children:0.00"
                ++ (row "used_cpu_user_children:0.00" ++ (row "")))))

unfoldable pub info_commandstats_msg : Text
info_commandstats_msg =
    row "# Commandstats" ++ (row "cmdstat_info:calls=3,usec=181,usec_per_call=60.33" ++ (row ""))

unfoldable pub info_cluster_msg : Text
info_cluster_msg = row "# Cluster" ++ (row "cluster_enabled:0" ++ (row ""))

unfoldable pub info_keyspace_msg : Text
info_keyspace_msg = row "# Keyspace" ++ (row "")

unfoldable pub sections_msg : Config → Text
sections_msg config =
    info_server_msg config
    ++ (info_clients_msg
        ++ (info_memory_msg
            ++ (info_persistence_msg
                ++ (info_stats_msg
                    ++ (info_replication_msg ++ (info_cpu_msg ++ (info_cluster_msg)))))))

unfoldable pub info_sections_msg : Config → Text
info_sections_msg config = sections_msg config ++ info_keyspace_msg

unfoldable pub all_sections_msg : Config → Text
all_sections_msg config = sections_msg config ++ (info_commandstats_msg ++ info_keyspace_msg)

-- `errorMsg`; the second has the command in quotes.
abbrev pub syntax_error : Text
syntax_error = codes "-ERR syntax error" ++ (13 ∷ 10 ∷ [])

abbrev pub unknown_command : Text → Text
unknown_command command =
    codes "-ERR unknown command '" ++ (command ++ (codes "'" ++ (13 ∷ 10 ∷ [])))
