-- ===== src/Tests/Sending.antt =====
-- A master that sends a slave the log that it has.
use pika.Prelude.{[], ◌∷◌, some}
use pika.BinlogReader.{Cursor}
use pika.BinlogSender.{room, read_binlog_file_to_wq}
use pika.BinlogSender.Chain.{Delivered, read_binlog_file_to_wq-Delivered}
use pika.SlaveNode.{SlaveNode, slave_binlog_sync, read_from_file}
use pika.SyncWindow.{empty_window}
use pika.LogOffset.{log_origin}
use pika.Tests.Files.{plain, coding}
use pika.Tests.Negotiations.{one_log}

abbrev at_front : Cursor plain
at_front = record { cur_filenum = 3; cur_offset = 0; last_record_offset = 0; queue = one_log.queue }

abbrev reading_slave : SlaveNode plain
reading_slave = record {
  ip = 49 ∷ [];
  port = 9221;
  table_name = [];
  partition_id = 0;
  session_id = 1;
  last_send_time = 0;
  last_recv_time = 0;
  slave_state = slave_binlog_sync;
  b_state = read_from_file;
  sync_win = empty_window;
  sent_offset = log_origin;
  acked_offset = log_origin;
  binlog_reader = some at_front;
}

read_binlog_file_to_wq-Delivered_example :
    Delivered plain coding 1
      (room 9000 reading_slave.sync_win)
      0
      one_log
      reading_slave
      []
      (read_binlog_file_to_wq plain coding 1 9000 0 one_log 100 reading_slave [])
read_binlog_file_to_wq-Delivered_example =
    read_binlog_file_to_wq-Delivered plain coding 1 9000 0 one_log 100 reading_slave []
