-- ===== src/Log.antt =====
-- include/log.h and src/log.cpp: levels, the pattern formatter, appenders, loggers and their manager.
pub mod Level
pub mod Event
pub mod Formatter
pub mod Stream
pub mod Appender
pub mod Logger
pub mod Manager
mod Examples
mod OutputExamples
