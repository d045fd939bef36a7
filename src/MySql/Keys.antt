-- ===== src/MySql/Keys.antt =====
-- The constants of src/diamond/collectors/mysqlstat/mysqlstat.py.
use fullerite.Base.{String, List, [], ◌∷◌, map}
use fullerite.Base.Text.{Str, codes}

-- `_GAUGE_KEYS`
abbrev pub gauge_keys : List Str
gauge_keys = map codes (
    "Innodb_buffer_pool_pages_data" ∷ "Innodb_buffer_pool_pages_dirty"
    ∷ "Innodb_buffer_pool_pages_free" ∷ "Innodb_buffer_pool_pages_misc"
    ∷ "Innodb_buffer_pool_pages_total" ∷ "Innodb_data_pending_fsyncs" ∷ "Innodb_data_pending_reads"
    ∷ "Innodb_data_pending_writes" ∷ "Innodb_os_log_pending_fsyncs" ∷ "Innodb_os_log_pending_writes"
    ∷ "Innodb_page_size" ∷ "Innodb_row_lock_current_waits" ∷ "Innodb_row_lock_time"
    ∷ "Innodb_row_lock_time_avg" ∷ "Innodb_row_lock_time_max" ∷ "Key_blocks_unused"
    ∷ "Last_query_cost" ∷ "Max_used_connections" ∷ "Open_files" ∷ "Open_streams"
    ∷ "Open_table_definitions" ∷ "Open_tables" ∷ "Qcache_free_blocks" ∷ "Qcache_free_memory"
    ∷ "Qcache_queries_in_cache" ∷ "Qcache_total_blocks" ∷ "Seconds_Behind_Master" ∷ "Threads_cached"
    ∷ "Threads_connected" ∷ "Threads_created" ∷ "Threads_running" ∷ "Innodb_bp_created_per_sec"
    ∷ "Innodb_bp_pages_evicted_no_access_per_sec" ∷ "Innodb_bp_pages_not_young_per_sec"
    ∷ "Innodb_bp_pages_read_ahead_per_sec" ∷ "Innodb_bp_pages_young_per_sec"
    ∷ "Innodb_bp_reads_per_sec" ∷ "Innodb_bp_written_per_sec" ∷ "Innodb_bp_add_alloc"
    ∷ "Innodb_bp_db_pages" ∷ "Innodb_bp_dictionary_alloc" ∷ "Innodb_bp_free_buffers"
    ∷ "Innodb_bp_hit_rate" ∷ "Innodb_bp_io_cur_pages" ∷ "Innodb_bp_io_sum_pages"
    ∷ "Innodb_bp_io_unzip_cur_pages" ∷ "Innodb_bp_io_unzip_sum_pages" ∷ "Innodb_bp_lru_len"
    ∷ "Innodb_bp_modified_pages" ∷ "Innodb_bp_not_young_hit_rate" ∷ "Innodb_bp_old_db_pages"
    ∷ "Innodb_bp_pending_pages" ∷ "Innodb_bp_pending_writes_flush_list"
    ∷ "Innodb_bp_pending_writes_lru" ∷ "Innodb_bp_pending_writes_single_page" ∷ "Innodb_bp_size"
    ∷ "Innodb_bp_total_alloc" ∷ "Innodb_bp_unzip_lru_len" ∷ "Innodb_bp_young_hit_rate"
    ∷ "Innodb_rseg_curr_size" ∷ "Innodb_rseg_max_size" ∷ "Innodb_hash_searches_per_sec"
    ∷ "Innodb_io_syncs_per_sec" ∷ "Innodb_log_io_per_sec" ∷ "Innodb_non_hash_searches_per_sec"
    ∷ "Innodb_per_sec_avg" ∷ "Innodb_reads_per_sec" ∷ "Innodb_rows_deleted_per_sec"
    ∷ "Innodb_rows_inserted_per_sec" ∷ "Innodb_rows_read_per_sec" ∷ "Innodb_rows_updated_per_sec"
    ∷ "Innodb_sem_spins_per_wait_mutex" ∷ "Innodb_sem_spins_per_wait_rw_excl"
    ∷ "Innodb_sem_spins_per_wait_rw_shared" ∷ "Innodb_writes_per_sec" ∷ "Innodb_bytes_per_read"
    ∷ "Innodb_hash_node_heap" ∷ "Innodb_hash_table_size" ∷ "Innodb_hash_used_cells"
    ∷ "Innodb_ibuf_free_list_len" ∷ "Innodb_ibuf_seg_size" ∷ "Innodb_ibuf_size"
    ∷ "Innodb_io_ibuf_logs" ∷ "Innodb_io_ibuf_reads" ∷ "Innodb_io_ibuf_syncs"
    ∷ "Innodb_io_pending_flush_bp" ∷ "Innodb_io_pending_flush_log" ∷ "Innodb_io_pending_reads"
    ∷ "Innodb_io_pending_writes" ∷ "" ∷ "Innodb_log_pending_checkpoint_writes"
    ∷ "Innodb_log_pending_log_writes" ∷ "Innodb_row_queries_inside" ∷ "Innodb_row_queries_queue"
    ∷ "Innodb_trx_history_list_length" ∷ "Innodb_trx_total_lock_structs"
    ∷ "Innodb_status_process_time" ∷ "MySQL_temptable_size" ∷ [])

-- `_IGNORE_KEYS`
abbrev pub ignore_keys : List Str
ignore_keys = map codes (
    "Master_Port" ∷ "Master_Server_Id" ∷ "Last_Errno" ∷ "Last_IO_Errno" ∷ "Last_SQL_Errno"
    ∷ "Binlog Dump" ∷ [])

-- `innodb_status_keys`: the names of the groups of a pattern, and the pattern.
abbrev pub innodb_status_keys : List (String × String)
innodb_status_keys =
    (
      "Innodb_bp_total_alloc,Innodb_bp_add_alloc",
      "Total memory allocated (\\d+)\\; in additional pool allocated (\\d+)",
    )
    ∷ (
      "Innodb_bp_reads_per_sec,Innodb_bp_created_per_sec,Innodb_bp_written_per_sec",
      "(^\\d+.\\d+) reads/s, (\\d+.\\d+) creates/s, (\\d+.\\d+) writes/s",
    )
    ∷ (
      "Innodb_io_ibuf_reads,Innodb_io_ibuf_logs,Innodb_io_ibuf_syncs",
      " ibuf aio reads: (\\d+), log i/o's: (\\d+), sync i/o's: (\\d+)",
    )
    ∷ (
      "Innodb_log_pending_log_writes,Innodb_log_pending_checkpoint_writes",
      "(\\d+) pending log writes, (\\d+) pending chkp writes",
    )
    ∷ (
      "Innodb_hash_searches_per_sec,Innodb_non_hash_searches_per_sec",
      "(\\d+.\\d+) hash searches/s, (\\d+.\\d+) non-hash searches/s",
    )
    ∷ (
      "Innodb_row_queries_inside,Innodb_row_queries_queue",
      "(\\d+) queries inside InnoDB, (\\d+) queries in queue",
    )
    ∷ (
      "Innodb_trx_total_lock_structs",
      "(\\d+) lock struct\\(s\\), heap size (\\d+), (\\d+) row lock\\(s\\), undo log entries (\\d+)",
    )
    ∷ (
      "Innodb_log_io_total,Innodb_log_io_per_sec",
      "(\\d+) log i\\/o's done, (\\d+.\\d+) log i\\/o's\\/second",
    )
    ∷ (
      "Innodb_io_os_file_reads,Innodb_io_os_file_writes,Innodb_io_os_file_fsyncs",
      "(\\d+) OS file reads, (\\d+) OS file writes, (\\d+) OS fsyncs",
    )
    ∷ (
      "Innodb_rows_inserted_per_sec,Innodb_rows_updated_per_sec,Innodb_rows_deleted_per_sec,Innodb_rows_read_per_sec",
      "(\\d+.\\d+) inserts\\/s, (\\d+.\\d+) updates\\/s, (\\d+.\\d+) deletes\\/s, (\\d+.\\d+) reads\\/s",
    )
    ∷ (
      "Innodb_reads_per_sec,Innodb_bytes_per_read,Innodb_io_syncs_per_sec,Innodb_writes_per_sec",
      "(\\d+.\\d+) reads\\/s, (\\d+) avg bytes\\/read, (\\d+.\\d+) writes\\/s, (\\d+.\\d+) fsyncs\\/s",
    )
    ∷ (
      "Innodb_bp_pages_young_per_sec,Innodb_bp_pages_not_young_per_sec",
      "(\\d+.\\d+) youngs\\/s, (\\d+.\\d+) non-youngs\\/s",
    )
    ∷ (
      "Innodb_bp_hit_rate,Innodb_bp_young_hit_rate,Innodb_bp_not_young_hit_rate",
      "Buffer pool hit rate (\\d+) \\/ \\d+, young-making rate (\\d+) \\/ \\d+ not (\\d+) \\/ \\d+",
    )
    ∷ ("Innodb_bp_size", "Buffer pool size   (\\d+)")
    ∷ ("Innodb_bp_db_pages", "Database pages     (\\d+)")
    ∷ ("Innodb_bp_dictionary_alloc", "Dictionary memory allocated (\\d+)")
    ∷ ("Innodb_bp_free_buffers", "Free buffers       (\\d+)")
    ∷ (
      "Innodb_hash_table_size,Innodb_hash_node_heap",
      "Hash table size (\\d+), node heap has (\\d+) buffer\\(s\\)",
    )
    ∷ ("Innodb_trx_history_list_length", "History list length (\\d+)")
    ∷ (
      "Innodb_bp_io_sum_pages,Innodb_bp_io_cur_pages,Innodb_bp_io_unzip_sum_pages,Innodb_bp_io_unzip_cur_pages",
      "I\\/O sum\\[(\\d+)\\]:cur\\[(\\d+)\\], unzip sum\\[(\\d+)\\]:cur\\[(\\d+)\\]",
    )
    ∷ (
      "Innodb_ibuf_size,Innodb_ibuf_free_list_len,Innodb_ibuf_seg_size,Innodb_ibuf_merges",
      "Ibuf: size (\\d+), free list len (\\d+), seg size (\\d+), (\\d+) merges",
    )
    ∷ ("Innodb_bp_lru_len,Innodb_bp_unzip_lru_len", "LRU len: (\\d+), unzip_LRU len: (\\d+)")
    ∷ ("Innodb_bp_modified_pages", "Modified db pages  (\\d+)")
    ∷ (
      "Innodb_sem_mutex_spin_waits,Innodb_sem_mutex_rounds,Innodb_sem_mutex_os_waits",
      "Mutex spin waits (\\d+), rounds (\\d+), OS waits (\\d+)",
    )
    ∷ (
      "Innodb_rows_inserted,Innodb_rows_updated,Innodb_rows_deleted,Innodb_rows_read",
      "Number of rows inserted (\\d+), updated (\\d+), deleted (\\d+), read (\\d+)",
    )
    ∷ ("Innodb_bp_old_db_pages", "Old database pages (\\d+)")
    ∷ (
      "Innodb_sem_os_reservation_count,Innodb_sem_os_signal_count",
      "OS WAIT ARRAY INFO: reservation count (\\d+), signal count (\\d+)",
    )
    ∷ (
      "Innodb_bp_pages_young,Innodb_bp_pages_not_young",
      "Pages made young (\\d+), not young (\\d+)",
    )
    ∷ (
      "Innodb_bp_pages_read,Innodb_bp_pages_created,Innodb_bp_pages_written",
      "Pages read (\\d+), created (\\d+), written (\\d+)",
    )
    ∷ (
      "Innodb_bp_pages_read_ahead_per_sec,Innodb_bp_pages_evicted_no_access_per_sec,Innodb_status_bp_pages_random_read_ahead",
      "Pages read ahead (\\d+.\\d+)/s, evicted without access (\\d+.\\d+)\\/s, Random read ahead (\\d+.\\d+)/s",
    )
    ∷ (
      "Innodb_io_pending_flush_log,Innodb_io_pending_flush_bp",
      "Pending flushes \\(fsync\\) log: (\\d+); buffer pool: (\\d+)",
    )
    ∷ (
      "Innodb_io_pending_reads,Innodb_io_pending_writes",
      "Pending normal aio reads: (\\d+) \\[\\d+, \\d+, \\d+, \\d+\\], aio writes: (\\d+) \\[\\d+, \\d+, \\d+, \\d+\\]",
    )
    ∷ (
      "Innodb_bp_pending_writes_lru,Innodb_bp_pending_writes_flush_list,Innodb_bp_pending_writes_single_page",
      "Pending writes: LRU (\\d+), flush list (\\d+), single page (\\d+)",
    )
    ∷ ("Innodb_per_sec_avg", "Per second averages calculated from the last (\\d+) seconds")
    ∷ (
      "Innodb_sem_rw_excl_spins,Innodb_sem_rw_excl_rounds,Innodb_sem_rw_excl_os_waits",
      "RW-excl spins (\\d+), rounds (\\d+), OS waits (\\d+)",
    )
    ∷ (
      "Innodb_sem_shared_spins,Innodb_sem_shared_rounds,Innodb_sem_shared_os_waits",
      "RW-shared spins (\\d+), rounds (\\d+), OS waits (\\d+)",
    )
    ∷ (
      "Innodb_sem_spins_per_wait_mutex,Innodb_sem_spins_per_wait_rw_shared,Innodb_sem_spins_per_wait_rw_excl",
      "Spin rounds per wait: (\\d+.\\d+) mutex, (\\d+.\\d+) RW-shared, (\\d+.\\d+) RW-excl",
    )
    ∷ ("Innodb_main_thd_log_flush_writes", "srv_master_thread log flush and writes: (\\d+)")
    ∷ (
      "Innodb_main_thd_loops_one_sec,Innodb_main_thd_loops_sleeps,Innodb_main_thd_loops_ten_sec,Innodb_main_thd_loops_background,Innodb_main_thd_loops_flush",
      "srv_master_thread loops: (\\d+) 1_second, (\\d+) sleeps, (\\d+) 10_second, (\\d+) background, (\\d+) flush",
    )
    ∷ (
      "Innodb_ibuf_inserts,Innodb_ibuf_merged_recs,Innodb_ibuf_merges",
      "(\\d+) inserts, (\\d+) merged recs, (\\d+) merges",
    )
    ∷ []
